-- ===== src/Conntrack/Identity.antt =====
-- transport.rs: which conntrack a flow has, in every state that `ConntrackMgr` reaches.
use libreatrust.Base.{
  ==_false, ==_true, Bool-cases, List, Option-cases, Text, [], ap, arith, inl, inr, none, refl,
  some, subst, sym, text_eq, text_eq_iff, ℕ, ◌%◌, ◌+◌, ◌<◌, ◌==◌, ◌^◌, ◌∙◌, ◌∷◌, ◌≡◌, ◌≤◌, ◌⊎◌,
}
use libreatrust.Error.{AtrError, AtrResult, AtrResult-cases}
use libreatrust.Map.{Map, insert, lookup, lookup-insert}
use libreatrust.Conntrack.{
  AuthResponseIp, Conntrack, ConntrackMgr, answered, fail_all, fail_conntrack, fail_pending,
  find_conntrack, fresh_conntrack, get_or_create, handle_auth_resp, new_mgr, update_conntrack,
}

-- The changes of the manager, while its counter does not wrap.
pub data Step : ConntrackMgr → ConntrackMgr → Type 0 where
  create :
      {mgr : ConntrackMgr} (key app_id : Text)
      → mgr.next_auth_id + 1 < 2 ^ 64
      → Step mgr (get_or_create mgr key app_id).1
  answer :
      {mgr : ConntrackMgr} (from_json : List ℕ → AtrResult AuthResponseIp) (status : ℕ)
      (payload : List ℕ)
      → Step mgr (handle_auth_resp from_json mgr status payload).1
  fail_each : {mgr : ConntrackMgr} (error : AtrError) → Step mgr (fail_pending error mgr)

pub data Reaches : ConntrackMgr → Type 0 where
  start : Reaches new_mgr
  step : {mgr mgr' : ConntrackMgr} → Reaches mgr → Step mgr mgr' → Reaches mgr'

-- A conntrack stands in the store under its own identifier.
abbrev pub Found : ℕ → List (ℕ × Conntrack) → Type 0
Found i store = (ct : Conntrack) × (find_conntrack i store ≡ some ct) × (ct.auth_id ≡ i)

abbrev pub Holds : ConntrackMgr → ℕ → Type 0
Holds mgr i = Found i mgr.by_id

pub record IsValid (mgr : ConntrackMgr) : Type 0 where
  pub bounded : (k : Text) (i : ℕ) → lookup k mgr.by_key ≡ some i → i ≤ mgr.next_auth_id
  pub apart :
      (k j : Text) (i : ℕ) → lookup k mgr.by_key ≡ some i → lookup j mgr.by_key ≡ some i → k ≡ j
  pub held : (k : Text) (i : ℕ) → lookup k mgr.by_key ≡ some i → Holds mgr i

new_mgr-IsValid : IsValid new_mgr
unfolding lookup
new_mgr-IsValid = record {
  bounded = λ k i e. absurd (cc);
  apart = λ k j i e f. absurd (cc);
  held = λ k i e. absurd (cc);
}

-- A change of the store that keeps the identifiers.
store-IsValid :
    (mgr : ConntrackMgr) (store : List (ℕ × Conntrack))
    → ((i : ℕ)
        → Holds mgr i
        → Holds (record { next_auth_id = mgr.next_auth_id; by_key = mgr.by_key; by_id = store }) i)
    → IsValid mgr
    → IsValid (record { next_auth_id = mgr.next_auth_id; by_key = mgr.by_key; by_id = store })
store-IsValid mgr store keep v = record {
  bounded = v.bounded;
  apart = v.apart;
  held = λ k i e. keep i (v.held k i e);
}

same_id : (d ct : Conntrack) → some d ≡ some ct → d.auth_id ≡ ct.auth_id
same_id d ct e = let same : d ≡ ct = cc in ap (λ c. c.auth_id) same

Found-update :
    (id : ℕ) (f : Conntrack → Conntrack)
    → ((ct : Conntrack) → (f ct).auth_id ≡ ct.auth_id)
    → (i : ℕ) (store : List (ℕ × Conntrack)) → Found i store
    → Found i (update_conntrack id f store)
unfolding find_conntrack update_conntrack
Found-update id f keeps i [] (ct, e, a) = absurd (cc)
Found-update id f keeps i ((j, d) ∷ store) (ct, e, a) = elim (Bool-cases (j == id)) [
  | inl hit ↦ rw hit (elim (Bool-cases (j == i)) [
    | inl here ↦
        let e' : some d ≡ some ct = rw here at e in
        rw here (f d, refl, keeps d ∙ same_id d ct e' ∙ a)
    | inr there ↦ rw there (Found-update id f keeps i store (ct, (rw there at e), a))
  ])
  | inr miss ↦ rw miss (elim (Bool-cases (j == i)) [
    | inl here ↦ rw here (ct, (rw here at e), a)
    | inr there ↦ rw there (Found-update id f keeps i store (ct, (rw there at e), a))
  ])
]

Found-fail :
    (error : AtrError) (i : ℕ) (store : List (ℕ × Conntrack))
    → Found i store
    → Found i (fail_all error store)
unfolding find_conntrack fail_all
Found-fail error i [] (ct, e, a) = absurd (cc)
Found-fail error i ((j, d) ∷ store) (ct, e, a) = elim (Bool-cases (j == i)) [
  | inl here ↦
      let e' : some d ≡ some ct = rw here at e in
      rw here (fail_conntrack error d, refl, same_id d ct e' ∙ a)
  | inr there ↦ rw there (Found-fail error i store (ct, (rw there at e), a))
]

inserted :
    (key k : Text) (id i : ℕ) (m : Map ℕ)
    → lookup k (insert key id m) ≡ some i
    → ((key ≡ k) × (id ≡ i)) ⊎ (lookup k m ≡ some i)
inserted key k id i m e =
    let e' = sym (lookup-insert key k id m) ∙ e in
    elim (Bool-cases (text_eq key k)) [
      | inl hit ↦ let e2 : some id ≡ some i = rw hit at e' in inl ((text_eq_iff key k).0 hit, cc)
      | inr miss ↦ inr (rw miss at e')
    ]

module _ (mgr : ConntrackMgr) (v : IsValid mgr) where
  -- The state after a new key, with the identifier after the last one.
  abbrev extended : Text → Text → ℕ → ConntrackMgr
  extended key app_id id = record {
    next_auth_id = id;
    by_key = insert key id mgr.by_key;
    by_id = (id, fresh_conntrack id app_id) ∷ mgr.by_id;
  }

  extended-IsValid :
      (key app_id : Text)
      → lookup key mgr.by_key ≡ none
      → IsValid (extended key app_id (mgr.next_auth_id + 1))
  unfolding find_conntrack
  extended-IsValid key app_id absent = record {
    bounded = λ k i e. elim (inserted key k (mgr.next_auth_id + 1) i mgr.by_key e) [
      | inl (same, last) ↦ omega arith
      | inr old ↦ omega (arith, v.bounded k i old)
    ];
    apart = λ k j i e f. elim (inserted key k (mgr.next_auth_id + 1) i mgr.by_key e) [
      | inl (same, last) ↦ elim (inserted key j (mgr.next_auth_id + 1) i mgr.by_key f) [
        | inl (same', last') ↦ sym same ∙ same'
        | inr old ↦ absurd (omega (arith, v.bounded j i old))
      ]
      | inr old ↦ elim (inserted key j (mgr.next_auth_id + 1) i mgr.by_key f) [
        | inl (same', last') ↦ absurd (omega (arith, v.bounded k i old))
        | inr old' ↦ v.apart k j i old old'
      ]
    ];
    held = λ k i e. elim (inserted key k (mgr.next_auth_id + 1) i mgr.by_key e) [
      | inl (same, last) ↦
          rw (==_true (mgr.next_auth_id + 1) i last)
            (fresh_conntrack (mgr.next_auth_id + 1) app_id, refl, last)
      | inr old ↦
          rw (==_false (mgr.next_auth_id + 1) i (λ last. absurd (omega (arith, v.bounded k i old))))
            (v.held k i old)
    ];
  }

  create-IsValid :
      (key app_id : Text) → mgr.next_auth_id + 1 < 2 ^ 64 → IsValid (get_or_create mgr key app_id).1
  unfolding get_or_create
  create-IsValid key app_id small =
      let same : (mgr.next_auth_id + 1) % 2 ^ 64 ≡ mgr.next_auth_id + 1 = omega arith in
      elim (Option-cases (lookup key mgr.by_key)) [
        | inl absent ↦
            rw (absent, get_or_create)
              (subst (λ id. IsValid (extended key app_id id)) (sym same)
                (extended-IsValid key app_id absent))
        | inr (known, e) ↦ rw (e, get_or_create) v
      ]

  answer-IsValid :
      (from_json : List ℕ → AtrResult AuthResponseIp) (status : ℕ) (payload : List ℕ)
      → IsValid (handle_auth_resp from_json mgr status payload).1
  unfolding handle_auth_resp
  answer-IsValid from_json status payload = elim (Bool-cases (status == 0)) [
    | inr other ↦ rw other v
    | inl zero_status ↦ rw zero_status (elim (AtrResult-cases (from_json payload)) [
      | inr (d, e) ↦ rw e v
      | inl (resp, e) ↦ rw e (elim (Option-cases (find_conntrack resp.conntrack_hash mgr.by_id)) [
        | inl missing ↦ rw missing v
        | inr (ct, found) ↦ rw found (
            store-IsValid mgr (update_conntrack resp.conntrack_hash (answered resp) mgr.by_id)
              (λ i h. Found-update resp.conntrack_hash (answered resp) (λ c. refl) i mgr.by_id h) v)
      ])
    ])
  ]

  fail-IsValid : (error : AtrError) → IsValid (fail_pending error mgr)
  unfolding fail_pending
  fail-IsValid error =
      store-IsValid mgr (fail_all error mgr.by_id) (λ i h. Found-fail error i mgr.by_id h) v

Step-IsValid : {mgr mgr' : ConntrackMgr} → Step mgr mgr' → IsValid mgr → IsValid mgr'
Step-IsValid {mgr} (create key app_id small) v = create-IsValid mgr v key app_id small
Step-IsValid {mgr} (answer from_json status payload) v =
    answer-IsValid mgr v from_json status payload
Step-IsValid {mgr} (fail_each error) v = fail-IsValid mgr v error

Reaches-IsValid : {mgr : ConntrackMgr} → Reaches mgr → IsValid mgr
Reaches-IsValid start = new_mgr-IsValid
Reaches-IsValid (step r s) = Step-IsValid s (Reaches-IsValid r)

-- In every state that the manager reaches by creating conntracks, by answers of the server and by
-- failing the pending ones, while its counter of identifiers has not wrapped at 2 ^ 64, each key
-- that has a conntrack finds it in the store under its own identifier, and two keys never share
-- one.
pub Reaches-apart :
    {mgr : ConntrackMgr} (k j : Text) (i : ℕ)
    → Reaches mgr
    → lookup k mgr.by_key ≡ some i
    → Holds mgr i × (lookup j mgr.by_key ≡ some i → k ≡ j)
Reaches-apart k j i r e = let v = Reaches-IsValid r in (v.held k i e, v.apart k j i e)
