-- ===== src/Conntrack/Answers.antt =====
-- transport.rs: what an answer of the server and a failed connection do to the conntracks.
use libreatrust.Base.{
  Bool, Bool-cases, List, [], ap, arith, false, if◌then◌else◌, inl, inr, is_empty, none, not, refl,
  some, true, ℕ, ◌&&◌, ◌==◌, ◌∷◌, ◌≡◌, ◌≢◌,
}
use libreatrust.Error.{AtrError, AtrResult, err, is_ok, ok}
use libreatrust.Conntrack.{
  AuthResponseIp, Conntrack, ConntrackMgr, answer_token, answered, fail_all, fail_conntrack,
  fail_pending, find_conntrack, handle_auth_resp, is_zero, update_conntrack,
}

find-update_same :
    (id : ℕ) (f : Conntrack → Conntrack) (store : List (ℕ × Conntrack)) (ct : Conntrack)
    → find_conntrack id store ≡ some ct
    → find_conntrack id (update_conntrack id f store) ≡ some (f ct)
unfolding find_conntrack update_conntrack
find-update_same id f [] ct e = absurd (cc)
find-update_same id f ((j, d) ∷ store) ct e = elim (Bool-cases (j == id)) [
  | inl hit ↦
      let e' : some d ≡ some ct = rw hit at e in
      let same : d ≡ ct = cc in rw hit (rw hit (ap (λ c. some (f c)) same))
  | inr miss ↦ rw miss (rw miss (find-update_same id f store ct (rw miss at e)))
]

find-update_other :
    (id i : ℕ) (f : Conntrack → Conntrack) (store : List (ℕ × Conntrack))
    → i ≢ id
    → find_conntrack i (update_conntrack id f store) ≡ find_conntrack i store
unfolding find_conntrack update_conntrack
find-update_other id i f [] h = refl
find-update_other id i f ((j, d) ∷ store) h = elim (Bool-cases (j == id)) [
  | inl hit ↦
      let other : j == i ≡ false = ground (arith, hit) in
      rw hit (rw other (find-update_other id i f store h))
  | inr miss ↦ rw miss (elim (Bool-cases (j == i)) [
    | inl here ↦ rw here refl
    | inr there ↦ rw there (find-update_other id i f store h)
  ])
]

is_ok-if : (b : Bool) (d : AtrError) → is_ok (if b then ok (tt {0}) else err d) ≡ b
is_ok-if true d = refl
is_ok-if false d = refl

-- An answer with status 0 for a known conntrack sets the result of this conntrack to what
-- `handle_auth_resp` returns, which is a success exactly with code 0 and a token that is not
-- blank; then the conntrack gets the answer's token, and otherwise keeps the one it had. Every
-- other conntrack stays as it was.
handle_auth_resp-answer :
    (from_json : List ℕ → AtrResult AuthResponseIp) (mgr : ConntrackMgr) (payload : List ℕ)
    (resp : AuthResponseIp) (ct : Conntrack)
    → from_json payload ≡ ok resp
    → find_conntrack resp.conntrack_hash mgr.by_id ≡ some ct
    → let after = handle_auth_resp from_json mgr 0 payload in
      (ct' : Conntrack) × (find_conntrack resp.conntrack_hash after.1.by_id ≡ some ct')
      × (ct'.auth_result ≡ some after.0)
      × (is_ok after.0 ≡ (is_zero resp.code && not (is_empty (answer_token resp))))
      × (ct'.connect_token ≡ (if is_ok after.0 then some (answer_token resp) else ct.connect_token))
      × ((i : ℕ)
          → i ≢ resp.conntrack_hash
          → find_conntrack i after.1.by_id ≡ find_conntrack i mgr.by_id)
unfolding handle_auth_resp
handle_auth_resp-answer from_json mgr payload resp ct e f = rw e (
    rw f (
      answered resp ct,
      find-update_same resp.conntrack_hash (answered resp) mgr.by_id ct f,
      refl,
      is_ok-if (is_zero resp.code && not (is_empty (answer_token resp))) _,
      refl,
      λ i h. find-update_other resp.conntrack_hash i (answered resp) mgr.by_id h,
    ))

fail-find :
    (error : AtrError) (i : ℕ) (store : List (ℕ × Conntrack)) (ct : Conntrack)
    → find_conntrack i store ≡ some ct
    → find_conntrack i (fail_all error store) ≡ some (fail_conntrack error ct)
unfolding find_conntrack fail_all
fail-find error i [] ct e = absurd (cc)
fail-find error i ((j, d) ∷ store) ct e = elim (Bool-cases (j == i)) [
  | inl here ↦
      let e' : some d ≡ some ct = rw here at e in
      let same : d ≡ ct = cc in rw here (ap (λ c. some (fail_conntrack error c)) same)
  | inr there ↦ rw there (fail-find error i store ct (rw there at e))
]

-- After `fail_pending` every conntrack that was there has a result: the error, where it had none,
-- and otherwise the one it had. Its token stays, and so do the keys.
pub fail_pending-decides :
    (error : AtrError) (mgr : ConntrackMgr) (i : ℕ) (ct : Conntrack)
    → find_conntrack i mgr.by_id ≡ some ct
    → (ct' : Conntrack) × (find_conntrack i (fail_pending error mgr).by_id ≡ some ct')
      × (ct.auth_result ≡ none → ct'.auth_result ≡ some (err error))
      × ((r : AtrResult (Unit {0})) → ct.auth_result ≡ some r → ct'.auth_result ≡ some r)
      × (ct'.connect_token ≡ ct.connect_token)
      × ((fail_pending error mgr).by_key ≡ mgr.by_key)
unfolding fail_pending
fail_pending-decides error mgr i ct e = (
  fail_conntrack error ct,
  fail-find error i mgr.by_id ct e,
  (λ h. rw h refl),
  (λ r h. rw h refl),
  refl,
  refl,
)
