-- ===== src/Log/Filtered.antt =====
-- Which messages the filter lets through.
use go_tcp_tunnel.Base.{
  ◌≤◌, ◌⊎◌, inl, inr, ltb, Bool-cases, ◌≡◌, refl, ap, ◌∙◌, arith, true, false, not, none, List, [],
  ◌∷◌, ◌++◌, codes, beq, append_assoc,
}
use go_tcp_tunnel.Log.{
  ℤ, pos, negsuc, exceeds, Any, text, int, is_level, passes, filter_log, Context, context_log,
}

-- Keys and values in pairs, with no key "level".
abbrev pub HasNoLevel : List Any → Type 0
HasNoLevel [] = Unit
HasNoLevel (k ∷ []) = ⊥
HasNoLevel (k ∷ v ∷ keyvals) = (is_level k ≡ false) × HasNoLevel keyvals

passes-append :
    (level : ℤ) (before keyvals : List Any)
    → HasNoLevel before
    → passes level (before ++ keyvals) ≡ passes level keyvals
unfolding passes
passes-append level [] keyvals h = refl
passes-append level (k ∷ []) keyvals h = absurd h
passes-append level (k ∷ v ∷ before) keyvals h =
    ground (arith, passes-append level before keyvals h.1)

passes-HasNoLevel :
    (level : ℤ) (keyvals : List Any) → HasNoLevel keyvals → passes level keyvals ≡ true
unfolding passes
passes-HasNoLevel level [] h = refl
passes-HasNoLevel level (k ∷ []) h = refl
passes-HasNoLevel level (k ∷ v ∷ keyvals) h = ground (arith, passes-HasNoLevel level keyvals h.1)

HasNoLevel-append : (xs ys : List Any) → HasNoLevel xs → HasNoLevel ys → HasNoLevel (xs ++ ys)
HasNoLevel-append [] ys h g = g
HasNoLevel-append (k ∷ []) ys h g = absurd h
HasNoLevel-append (k ∷ v ∷ xs) ys h g = (h.0, HasNoLevel-append xs ys h.1 g)

level_key : is_level (text (codes "level")) ≡ true
unfolding beq
level_key = refl

passes_level :
    (level n : ℤ) (keyvals : List Any)
    → HasNoLevel keyvals
    → passes level (text (codes "level") ∷ int n ∷ keyvals) ≡ not (exceeds n level)
unfolding passes
passes_level level n keyvals h = ground (arith, level_key, passes-HasNoLevel level keyvals h)

-- The order of the integers.
abbrev pub IsAtMost : ℤ → ℤ → Type 0
IsAtMost (pos m) (pos n) = m ≤ n
IsAtMost (pos m) (negsuc n) = ⊥
IsAtMost (negsuc m) (pos n) = Unit
IsAtMost (negsuc m) (negsuc n) = n ≤ m

exceeds_cases :
    (m n : ℤ) → (IsAtMost m n × (exceeds m n ≡ false)) ⊎ ((IsAtMost m n → ⊥) × (exceeds m n ≡ true))
unfolding exceeds
exceeds_cases (pos m) (pos n) = elim (Bool-cases (ltb n m)) [
  | inl e ↦ inr (λ h. ground (arith, h, e), e)
  | inr e ↦ inl (ground (arith, e), e)
]
exceeds_cases (pos m) (negsuc n) = inr (λ h. h, refl)
exceeds_cases (negsuc m) (pos n) = inl (tt, refl)
exceeds_cases (negsuc m) (negsuc n) = elim (Bool-cases (ltb m n)) [
  | inl e ↦ inr (λ h. ground (arith, h, e), e)
  | inr e ↦ inl (ground (arith, e), e)
]

-- A message with a level, logged through a context over a filter: either its level is at most the
-- filter's, and the logger below is called with the message, the context's prefix before it and its
-- suffix behind it; or its level is above the filter's, and no logger is called. No other key is
-- "level", and the context adds keys with their values.
pub context_log-filter_log :
    (level n : ℤ) (c : Context) (keyvals : List Any)
    → HasNoLevel c.prefix
    → HasNoLevel c.suffix
    → HasNoLevel keyvals
    → (IsAtMost n level
        × (context_log
              (record c { logger = filter_log level c.logger })
              (text (codes "level") ∷ int n ∷ keyvals)
            ≡ c.logger (c.prefix ++ (text (codes "level") ∷ int n ∷ (keyvals ++ c.suffix)))))
      ⊎ ((IsAtMost n level → ⊥)
          × (context_log
                (record c { logger = filter_log level c.logger })
                (text (codes "level") ∷ int n ∷ keyvals)
              ≡ none))
unfolding context_log filter_log
context_log-filter_log level n c keyvals p s k =
    let message = text (codes "level") ∷ int n ∷ keyvals in
    let whole = append_assoc c.prefix message c.suffix in
    let passed =
      ap (passes level) whole
      ∙ (passes-append level c.prefix (message ++ c.suffix) p
          ∙ passes_level level n (keyvals ++ c.suffix) (HasNoLevel-append keyvals c.suffix k s)) in
    elim (exceeds_cases n level) [
      | inl (low, e) ↦ inl (low, ground (arith, passed, e, whole))
      | inr (high, e) ↦ inr (high, ground (arith, passed, e))
    ]
