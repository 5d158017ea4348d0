-- ===== src/Layer3/Steps/Grants.antt =====
-- transport.rs: properties of every conntrack of a store, and what keeps them.
use libreatrust.Base.{
  All, Bool-cases, List, [], arith, inl, inr, some, subst, sym, ℕ, ◌++◌, ◌==◌, ◌∷◌, ◌≡◌,
}
use libreatrust.Error.{AtrError}
use libreatrust.Conntrack.{Conntrack, fail_all, fail_conntrack, find_conntrack, update_conntrack}

pub All-append :
    {A : Type 0} (P : A → Type 0) (xs ys : List A) → All P xs → All P ys → All P (xs ++ ys)
All-append P [] ys h k = k
All-append P (x ∷ xs) ys h k = (h.0, All-append P xs ys h.1 k)

pub All-map :
    {A : Type 0} (P Q : A → Type 0) → ((a : A) → P a → Q a) → (xs : List A) → All P xs → All Q xs
All-map P Q f [] h = tt
All-map P Q f (x ∷ xs) h = (f x h.0, All-map P Q f xs h.1)

-- A property of the entries of a store.
module _ (P : ℕ → Conntrack → Type 0) where
  pub All-update :
      (id : ℕ) (f : Conntrack → Conntrack) (store : List (ℕ × Conntrack))
      → ((ct : Conntrack) → P id ct → P id (f ct))
      → All (λ e. P e.0 e.1) store
      → All (λ e. P e.0 e.1) (update_conntrack id f store)
  unfolding update_conntrack
  All-update id f [] keeps h = tt
  All-update id f ((i, ct) ∷ store) keeps h = elim (Bool-cases (i == id)) [
    | inl hit ↦
        let same : i ≡ id = ground (arith, hit) in
        rw hit (
          subst (λ j. P j (f ct)) (sym same) (keeps ct (subst (λ j. P j ct) same h.0)),
          All-update id f store keeps h.1,
        )
    | inr miss ↦ rw miss (h.0, All-update id f store keeps h.1)
  ]

  pub All-fail :
      (error : AtrError) (store : List (ℕ × Conntrack))
      → ((i : ℕ) (ct : Conntrack) → P i ct → P i (fail_conntrack error ct))
      → All (λ e. P e.0 e.1) store
      → All (λ e. P e.0 e.1) (fail_all error store)
  unfolding fail_all
  All-fail error [] keeps h = tt
  All-fail error ((i, ct) ∷ store) keeps h = (keeps i ct h.0, All-fail error store keeps h.1)

  pub All-find :
      (id : ℕ) (store : List (ℕ × Conntrack)) (ct : Conntrack)
      → find_conntrack id store ≡ some ct
      → All (λ e. P e.0 e.1) store
      → P id ct
  unfolding find_conntrack
  All-find id [] ct e h = absurd (cc)
  All-find id ((i, d) ∷ store) ct e h = elim (Bool-cases (i == id)) [
    | inl hit ↦
        let same : i ≡ id = ground (arith, hit) in
        let e' : some d ≡ some ct = rw hit at e in
        let found : d ≡ ct = cc in subst (λ c. P id c) found (subst (λ j. P j d) same h.0)
    | inr miss ↦ All-find id store ct (rw miss at e) h.1
  ]
