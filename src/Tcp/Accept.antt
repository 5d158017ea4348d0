-- ===== src/Tcp/Accept.antt =====
-- transport.rs: what `wait_for_tcp_connect_status` makes of a server's answers.
use libreatrust.Base.{
  ==_false, All, Bool, List, [], ap, arith, concat, false, if◌then◌else◌, length, map, refl, suc,
  true, ℕ, ◌++◌, ◌<◌, ◌==◌, ◌∙◌, ◌∷◌, ◌≡◌, ◌≢◌,
}
use libreatrust.Stream.{
  Reader, bind-failed, bind-ready, byte_count, failed, pure, read_tunnel_exact_blocking, ready,
  ◌>>=◌,
}
use libreatrust.Error.{AtrResult, Message, err, lossy, network_failed}
use libreatrust.Stream.Live.{IsLive, contents}
use libreatrust.Stream.Front.{Leaves, read_blocking-front}
use libreatrust.Tcp.{
  auth_loop, auth_round, auth_verdict, connect_request, connect_status, lift, says_ok,
  wait_for_tcp_connect_status,
}
use libreatrust.Tcp.Answers.{
  IsMarker, auth_answer, auth_loop-answer, byte_count-live, length-markers, marker_frame,
}

Refused : AtrResult (Unit {0}) → Type 0
Refused r = (m : Message) × (r ≡ err (network_failed m))

Refused-if :
    (b : Bool) (x y : AtrResult (Unit {0})) → Refused x → Refused y → Refused (if b then x else y)
unfolding Refused
Refused-if true x y hx hy = hx
Refused-if false x y hx hy = hy

Refused-connect_status : (code : ℕ) → (code == 0 ≡ false) → Refused (connect_status code)
unfolding connect_status Refused
Refused-connect_status code h = rw h (
    Refused-if (code == 1) _ _ (_, refl)
      (Refused-if (code == 2) _ _ (_, refl)
        (Refused-if (code == 3) _ _ (_, refl)
          (Refused-if (code == 4) _ _ (_, refl)
            (Refused-if (code == 5) _ _ (_, refl)
              (Refused-if (code == 6) _ _ (_, refl)
                (Refused-if (code == 7) _ _ (_, refl)
                  (Refused-if (code == 8) _ _ (_, refl) (_, refl)))))))))

module _ (written : List ℕ) (events : Reader) (markers : List (List ℕ)) (nested : Bool)
    (text : List ℕ) (live : IsLive events) (ms : All IsMarker markers)
    (fits : length text < 65536) where
  judged :
      (more : List ℕ)
      → contents events ≡ concat (map marker_frame markers) ++ (auth_answer nested text ++ more)
      → (mid : Reader) × (rest : Reader) × (left : ℕ) × (auth_loop (suc (byte_count events)) events
          ≡ auth_loop (suc left) mid)
        × (auth_round mid ≡ auth_verdict text rest)
        × Leaves events rest more
  judged more e =
      let bound = length-markers markers (auth_answer nested text ++ more) in
      auth_loop-answer markers (suc (byte_count events)) events nested text more
        (omega (arith, byte_count-live events live, ap length e, bound)) live ms fits e

  -- Where the server says that the authentication failed, so does the wait, with the server's
  -- text, after any markers.
  wait_for_tcp_connect_status-unauthorized :
      (more : List ℕ)
      → says_ok text ≡ false
      → contents events ≡ concat (map marker_frame markers) ++ (auth_answer nested text ++ more)
      → wait_for_tcp_connect_status written events ≡ failed (network_failed (lossy text))
  unfolding wait_for_tcp_connect_status auth_loop auth_verdict
  wait_for_tcp_connect_status-unauthorized more h e =
      let (mid, rest, left, s, r, t) = judged more e in
      bind-failed (auth_loop (suc (byte_count events))) _ events _
        (s ∙ rw (r, auth_loop) (rw h refl))

  status_step :
      (code : ℕ) (more : List ℕ)
      → says_ok text ≡ true
      → contents events
        ≡ concat (map marker_frame markers) ++ (auth_answer nested text ++ (0x05 ∷ code ∷ more))
      → (rest : Reader) × Leaves events rest more
        × (wait_for_tcp_connect_status written events
            ≡ (lift (connect_status code) >>= λ c. pure (written ++ connect_request)) rest)
  unfolding wait_for_tcp_connect_status auth_loop auth_verdict
  status_step code more h e =
      let (last, mid, left, s, r, t) = judged (0x05 ∷ code ∷ more) e in
      let (rest, r', t') = read_blocking-front mid (0x05 ∷ code ∷ []) more t.live t.left in
      (
        rest,
        record { live = t'.live; left = t'.left; shorter = omega (arith, t.shorter, t'.shorter) },
        bind-ready (auth_loop (suc (byte_count events))) _ events mid tt
              (s ∙ rw (r, auth_loop) (rw h refl))
            ∙ bind-ready (read_tunnel_exact_blocking 2) _ mid rest _ r',
      )

  -- Where the server accepts the authentication after any markers and answers with the status
  -- code `code`, the wait returns if the code is 0, having written the four-byte request for the
  -- connection and with what follows still to come, and fails with a network error if it is not.
  pub wait_for_tcp_connect_status-code :
      (code : ℕ) (more : List ℕ)
      → says_ok text ≡ true
      → contents events
        ≡ concat (map marker_frame markers) ++ (auth_answer nested text ++ (0x05 ∷ code ∷ more))
      → (rest : Reader) × Leaves events rest more
        × (code ≡ 0
            → wait_for_tcp_connect_status written events ≡ ready (written ++ connect_request) rest)
        × (code ≢ 0
            → (m : Message) × (wait_for_tcp_connect_status written events
                ≡ failed (network_failed m)))
  unfolding connect_status Refused
  wait_for_tcp_connect_status-code code more h e =
      let (rest, t, s) = status_step code more h e in
      (
        rest,
        t,
        (λ z.
            s
            ∙ ap (λ r. (lift r >>= λ c. pure (written ++ connect_request)) rest)
                (ap connect_status z)),
        λ nz. let (m, r) = Refused-connect_status code (==_false code 0 nz) in (m, s ∙ rw r refl),
      )
