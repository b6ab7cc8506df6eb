-- ===== src/Interleaving/Owners.antt =====
-- Who is to close a listener: a client's item of the registry, or a goroutine that has it in hand.
use go_tcp_tunnel.Base.{
  ℕ, Bool, true, false, ◌≡◌, ◌↔◌, inl, inr, refl, arith, List, [], ◌∷◌, ◌++◌, Bytes, beq, beq_iff,
  ◌==◌, if◌then◌else◌, if_both, holds, discard, holds-discard, holds-append, sym, Bool-cases, subst,
}

pub data Holder : Type 0 where
  by_client : Bytes → Holder
  by_goroutine : ℕ → Holder

abbrev pub same : Holder → Holder → Bool
same (by_client a) (by_client b) = beq a b
same (by_client a) (by_goroutine n) = false
same (by_goroutine n) (by_client a) = false
same (by_goroutine n) (by_goroutine m) = n == m

pub same_iff : (h g : Holder) → (same h g ≡ true) ↔ (h ≡ g)
same_iff (by_client a) (by_client b) = ground (arith, beq_iff a b)
same_iff (by_client a) (by_goroutine n) = ground arith
same_iff (by_goroutine n) (by_client a) = ground arith
same_iff (by_goroutine n) (by_goroutine m) = ground arith

-- Equal for clients and for goroutines.
pub pointwise :
    (f g : Holder → List ℕ)
    → ((a : Bytes) → f (by_client a) ≡ g (by_client a))
    → ((n : ℕ) → f (by_goroutine n) ≡ g (by_goroutine n))
    → (h : Holder) → f h ≡ g h
pointwise f g c d (by_client a) = c a
pointwise f g c d (by_goroutine n) = d n

abbrev pub Distinct : List ℕ → Type 0
Distinct [] = Unit
Distinct (l ∷ ls) = (holds l ls ≡ false) × Distinct ls

-- Every open listener has one holder, and what a holder has is open.
pub record IsSound (own : Holder → List ℕ) (opened : List ℕ) : Type 0 where
  pub owned : (k : ℕ) → holds k opened ≡ true → (h : Holder) × (holds k (own h) ≡ true)
  pub all_open : (k : ℕ) (h : Holder) → holds k (own h) ≡ true → holds k opened ≡ true
  pub unique : (k : ℕ) (h g : Holder) → holds k (own h) ≡ true → holds k (own g) ≡ true → h ≡ g
  pub distinct : (h : Holder) → Distinct (own h)

Distinct-snoc : (l : ℕ) (ls : List ℕ) → holds l ls ≡ false → Distinct ls → Distinct (ls ++ l ∷ [])
unfolding holds
Distinct-snoc l [] f d = (refl, tt)
Distinct-snoc l (m ∷ ls) f d =
    (ground (arith, holds-append m ls (l ∷ [])), Distinct-snoc l ls (ground arith) d.1)

holds-nil : (k : ℕ) → holds k [] ≡ false
unfolding holds
holds-nil k = refl

module _ (own own' : Holder → List ℕ) (opened : List ℕ) (v : IsSound own opened) where
  pub same-IsSound : ((h : Holder) → own' h ≡ own h) → IsSound own' opened
  same-IsSound e = record {
    owned = λ k o. let (h, p) = v.owned k o in (h, ground (arith, e h));
    all_open = λ k h p. v.all_open k h (ground (arith, e h));
    unique = λ k h g p q. v.unique k h g (ground (arith, e h)) (ground (arith, e g));
    distinct = λ h. subst Distinct (sym (e h)) (v.distinct h);
  }

  -- The listeners of `a` go to `b`, who had none.
  pub handed-IsSound :
      (a b : Holder)
      → same a b ≡ false
      → own b ≡ []
      → ((h : Holder) → own' h ≡ (if same h a then [] else if same h b then own a else own h))
      → IsSound own' opened
  handed-IsSound a b ne none_yet e = record {
    owned = λ k o.
        let (h, p) = v.owned k o in
        elim (Bool-cases (same h a)) [
          | inl x ↦ (b, ground (arith, e b, same_iff h a, same_iff b a, same_iff b b))
          | inr x ↦ (h, ground (arith, e h, same_iff h b, holds-nil k))
        ];
    all_open = λ k h p. ground (arith, e h, v.all_open k h, v.all_open k a, holds-nil k);
    unique = λ k h g p q. ground (
      arith,
      e h,
      e g,
      v.unique k h g,
      v.unique k a g,
      v.unique k h a,
      holds-nil k,
      same_iff h b,
      same_iff g b,
      same_iff h a,
      same_iff g a,
    );
    distinct = λ h. subst Distinct (sym (e h)) (
        if_both Distinct (same h a) _ _ tt
          (if_both Distinct (same h b) _ _ (v.distinct a) (v.distinct h)));
  }

  -- `a` opens a new listener.
  pub opened-IsSound :
      (a : Holder) (l : ℕ)
      → holds l opened ≡ false
      → ((h : Holder) → own' h ≡ (if same h a then own a ++ l ∷ [] else own h))
      → IsSound own' (l ∷ opened)
  unfolding holds
  opened-IsSound a l new e = record {
    owned = λ k o. elim (Bool-cases (k == l)) [
      | inl x ↦ (a, ground (arith, e a, same_iff a a, holds-append k (own a) (l ∷ [])))
      | inr x ↦
          let (h, p) = v.owned k (ground arith) in
          (h, ground (arith, e h, same_iff h a, holds-append k (own a) (l ∷ [])))
    ];
    all_open = λ k h p.
        ground (arith, e h, v.all_open k h, v.all_open k a, holds-append k (own a) (l ∷ []));
    unique = λ k h g p q. ground (
      arith,
      e h,
      e g,
      v.unique k h g,
      v.unique k a g,
      v.unique k h a,
      v.all_open k h,
      v.all_open k g,
      v.all_open k a,
      holds-append k (own a) (l ∷ []),
      same_iff h a,
      same_iff g a,
    );
    distinct = λ h. subst Distinct (sym (e h)) (
        if_both Distinct (same h a) _ _
          (Distinct-snoc l (own a) (ground (arith, v.all_open l a)) (v.distinct a)) (v.distinct h));
  }

  -- `a` closes the first of its listeners.
  pub closed-IsSound :
      (a : Holder) (l : ℕ) (ls : List ℕ)
      → own a ≡ l ∷ ls
      → ((h : Holder) → own' h ≡ (if same h a then ls else own h))
      → IsSound own' (discard l opened)
  unfolding holds
  closed-IsSound a l ls first e =
      let tail : Distinct (l ∷ ls) = subst Distinct first (v.distinct a) in
      record {
        owned = λ k o.
            let (h, p) = v.owned k (ground (arith, holds-discard k l opened)) in
            (h, ground (arith, e h, same_iff h a, first, holds-discard k l opened));
        all_open = λ k h p. ground (
          arith,
          e h,
          v.all_open k h,
          v.all_open k a,
          v.unique k h a,
          holds-discard k l opened,
          tail.0,
          first,
          same_iff h a,
        );
        unique = λ k h g p q. ground (
          arith,
          e h,
          e g,
          v.unique k h g,
          v.unique k a g,
          v.unique k h a,
          first,
          same_iff h a,
          same_iff g a,
        );
        distinct =
            λ h. subst Distinct (sym (e h)) (if_both Distinct (same h a) _ _ tail.1 (v.distinct h));
      }
