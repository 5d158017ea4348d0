-- ===== src/Remote/Delivery.antt =====
-- transport.rs: the packets of a batch of frames reach the tunnel's receiver.
use libreatrust.Base.{
  All, Bool, List, [], ap, append-nil, append_assoc, be16, concat, false, inl, inr, length, map,
  refl, sym, true, ℕ, ◌++◌, ◌<◌, ◌∙◌, ◌∷◌, ◌≡◌, ◌≤◌, ◌⊎◌,
}
use libreatrust.Error.{AtrResult, ok}
use libreatrust.Conntrack.{AuthResponseIp}
use libreatrust.Keepalive.{record_frame}
use libreatrust.Stream.{Reader, ready}
use libreatrust.Stream.Live.{IsLive, contents}
use libreatrust.Envelope.{decode_l3_data_payload, is_complete_ip_packet, len_mode}
use libreatrust.Frames.Data.{answer_frame, read_l3_frame_available-packet}
use libreatrust.Remote.{RemoteState, drain_l3_remote_frames, handle_l3_remote_frame, send_packets}

-- A complete IP packet that a data frame with a length can carry: a longer one is read as an
-- envelope with a token.
pub record IsCarried (packet : List ℕ) : Type 0 where
  pub some_byte : 0 < length packet
  pub fits : length packet ≤ 4096
  pub complete : is_complete_ip_packet packet ≡ true

abbrev pub packet_frame : List ℕ → List ℕ
packet_frame packet = 0x05 ∷ 0x94 ∷ (be16 (length packet) ++ packet)

-- The outcome of a batch: the packets done are sent on in order, and those left are to come.
pub record Drained (from_json : List ℕ → AtrResult AuthResponseIp) (clock : ℕ → ℕ) (events : Reader)
    (state : RemoteState) (packets : List (List ℕ)) (more : List ℕ) : Type 0 where
  pub done : List (List ℕ)
  pub todo : List (List ℕ)
  pub further : Bool
  pub after : RemoteState
  pub rest : Reader
  pub run :
      drain_l3_remote_frames from_json clock (length packets) state events
      ≡ ready (further, after) rest
  pub split : done ++ todo ≡ packets
  pub sent : after.incoming ≡ state.incoming ++ done
  pub left : contents rest ≡ concat (map packet_frame todo) ++ more
  pub live : IsLive rest
  pub full : (further ≡ false) ⊎ (todo ≡ [])

module _ (from_json : List ℕ → AtrResult AuthResponseIp) (clock : ℕ → ℕ) where
  -- The state after a packet in a data frame.
  abbrev received : RemoteState → List ℕ → ℕ → RemoteState
  received state packet time = record state {
    incoming = state.incoming ++ (packet ∷ []);
    liveness = record_frame state.liveness 0x94 time;
  }

  handle-packet :
      (state : RemoteState) (packet : List ℕ) (time : ℕ)
      → state.receiver_runs ≡ true
      → decode_l3_data_payload packet len_mode ≡ ok (packet ∷ [])
      → handle_l3_remote_frame from_json
          (answer_frame packet len_mode)
          (record state { liveness = record_frame state.liveness 0x94 time })
        ≡ ok (received state packet time)
  unfolding handle_l3_remote_frame send_packets
  handle-packet state packet time runs decoded = rw decoded (rw runs refl)

  -- Where data frames with complete IP packets, each of at most 4096 bytes, are to come on a live
  -- connection and the receiver runs, a batch of as many frames sends a front of these packets on,
  -- in order and without loss, and leaves the others to come; unless it reports that nothing more
  -- is there, it has sent all.
  pub drain_l3_remote_frames-packets :
      (packets : List (List ℕ)) (more : List ℕ) (events : Reader) (state : RemoteState)
      → IsLive events
      → state.receiver_runs ≡ true
      → All IsCarried packets
      → contents events ≡ concat (map packet_frame packets) ++ more
      → Drained from_json clock events state packets more
  unfolding drain_l3_remote_frames
  drain_l3_remote_frames-packets [] more events state live runs carried e = record {
    done = [];
    todo = [];
    further = true;
    after = state;
    rest = events;
    run = refl;
    split = refl;
    sent = sym (append-nil state.incoming);
    left = e;
    live = live;
    full = inr refl;
  }
  drain_l3_remote_frames-packets (p ∷ packets) more events state live runs carried e =
      let tail = concat (map packet_frame packets) ++ more in
      let e' : contents events ≡ 0x05 ∷ 0x94 ∷ (be16 (length p) ++ (p ++ tail)) =
        e
        ∙ append_assoc (packet_frame p) (concat (map packet_frame packets)) more
        ∙ append_assoc (0x05 ∷ 0x94 ∷ be16 (length p)) p tail in
      let c = carried.0 in
      let (yields, decoded) =
        read_l3_frame_available-packet events p tail live c.some_byte c.fits c.complete e' in
      elim yields [
        | inl (mid, r, t) ↦
            let state' = received state p (clock (length packets)) in
            let d =
              drain_l3_remote_frames-packets packets more mid state' t.live runs carried.1 t.left in
            record {
              done = p ∷ d.done;
              todo = d.todo;
              further = d.further;
              after = d.after;
              rest = d.rest;
              run =
                  rw (r, drain_l3_remote_frames)
                    (rw (handle-packet state p (clock (length packets)) runs decoded) d.run);
              split = ap (λ s. p ∷ s) d.split;
              sent = d.sent ∙ append_assoc state.incoming (p ∷ []) d.done;
              left = d.left;
              live = d.live;
              full = d.full;
            }
        | inr (mid, r, w) ↦ record {
          done = [];
          todo = p ∷ packets;
          further = false;
          after = state;
          rest = mid;
          run = rw (r, drain_l3_remote_frames) refl;
          split = refl;
          sent = sym (append-nil state.incoming);
          left = w.left ∙ e;
          live = w.live;
          full = inl refl;
        }
      ]
