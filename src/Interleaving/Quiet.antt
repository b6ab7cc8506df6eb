-- ===== src/Interleaving/Quiet.antt =====
-- What the invariant says of a server whose goroutines have come to rest.
use go_tcp_tunnel.Base.{
  ◌⊎◌, ℕ, true, false, ◌≡◌, ◌≢◌, inl, inr, refl, ap, ◌∙◌, arith, none, some, Option, List, [], ◌∷◌,
  Bytes, holds, Bool-cases,
}
use go_tcp_tunnel.Base.Dict.{lookup}
use go_tcp_tunnel.Registry.{RegistryItem, Entry, void, item}
use go_tcp_tunnel.Server.{Listen}
use go_tcp_tunnel.Server.Listeners.{IsTidy, Owner}
use go_tcp_tunnel.Server.Tunnels.{OpensNew}
use go_tcp_tunnel.Interleaving.{closing, System, Reach, listeners_of, held, own}
use go_tcp_tunnel.Interleaving.Owners.{Holder, by_client, by_goroutine}
use go_tcp_tunnel.Interleaving.Safety.{Reach-Inv}

-- No goroutine has a listener in hand.
abbrev pub IsQuiet : System → Type 0
IsQuiet s = (n : ℕ) → held (s.pc n) ≡ []

item_owner :
    (items_entry : Option Entry) (k : ℕ)
    → holds k (listeners_of items_entry) ≡ true
    → (i : RegistryItem) × (items_entry ≡ some (item i)) × (holds k i.listeners ≡ true)
unfolding holds
item_owner none k h = cc
item_owner (some void) k h = cc
item_owner (some (item i)) k h = (i, refl, h)

client-injective : {a b : Bytes} → by_client a ≡ by_client b → a ≡ b
client-injective e = cc

goroutine-injective : {m n : ℕ} → by_goroutine m ≡ by_goroutine n → m ≡ n
goroutine-injective e = cc

apart : {n : ℕ} (a : Bytes) → by_goroutine n ≢ by_client a
apart a e = cc

module _ (listen : Listen) (base_domain : Bytes) (fresh : OpensNew listen) (s : System)
    (reached : Reach listen base_domain s) where
  listener-Owner :
      (k : ℕ) (h : Holder)
      → IsQuiet s
      → holds k (own s.registry s.pc h) ≡ true
      → Owner s.registry.items k
  unfolding holds
  listener-Owner k (by_client a) quiet p =
      let (i, stored, q) = item_owner (lookup a s.registry.items) k p in
      record { identifier = a; found = i; stored = stored; held = q }
  listener-Owner k (by_goroutine n) quiet p = absurd (ground (arith, quiet n))

  -- Whatever steps the goroutines took, when none of them has a listener in hand, the open
  -- listeners are exactly those of the items of a consistent registry, each in one item;
  -- net.Listen is assumed to open new listeners.
  pub Reach-IsTidy :
      IsQuiet s → IsTidy (record { registry = s.registry; open_listeners = s.opened })
  Reach-IsTidy quiet =
      let v = Reach-Inv listen base_domain fresh reached in
      record {
        consistent = v.consistent;
        owned = λ k h. let (o, p) = v.sound.owned k h in listener-Owner k o quiet p;
        opened = λ k a i e h.
            v.sound.all_open k (by_client a) (ap (λ q. holds k (listeners_of q)) e ∙ h);
        once = λ k a c i j e f g h. client-injective (
            v.sound.unique k (by_client a) (by_client c) (ap (λ q. holds k (listeners_of q)) e ∙ g)
              (ap (λ q. holds k (listeners_of q)) f ∙ h));
      }

  -- Whatever steps the goroutines took, the listener that a goroutine closes next is open, is in no
  -- item of the registry, and is in the hands of no other goroutine; net.Listen is assumed to open
  -- new listeners.
  pub Reach_closes :
      (n m : ℕ) (l : ℕ) (ls : List ℕ)
      → s.pc n ≡ closing (l ∷ ls)
      → (holds l s.opened ≡ true)
        × (Owner s.registry.items l → ⊥)
        × ((m ≡ n) ⊎ (holds l (held (s.pc m)) ≡ false))
  unfolding holds
  Reach_closes n m l ls at_pc =
      let v = Reach-Inv listen base_domain fresh reached in
      let mine : holds l (held (s.pc n)) ≡ true = ground (arith, at_pc) in
      (
        v.sound.all_open l (by_goroutine n) mine,
        λ o. apart o.identifier (
            v.sound.unique l (by_goroutine n) (by_client o.identifier) mine
              (ap (λ q. holds l (listeners_of q)) o.stored ∙ o.held)),
        elim (Bool-cases (holds l (held (s.pc m)))) [
          | inr no_other ↦ inr no_other
          | inl other ↦
              inl (
                goroutine-injective (v.sound.unique l (by_goroutine m) (by_goroutine n) other mine))
        ],
      )
