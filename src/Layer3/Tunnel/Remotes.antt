-- ===== src/Layer3/Tunnel/Remotes.antt =====
-- transport.rs: which remotes a call of the tunnel touches.
use libreatrust.Base.{
  Bool-cases, Ipv4Addr, List, Option, Option-cases, Text, ap, false, if_both, if_false, if_true,
  inl, inr, refl, some, subst, sym, text_eq, text_eq_iff, text_eq_refl, ℕ, ◌∙◌, ◌≡◌, ◌⊎◌,
}
use libreatrust.Error.{AtrResult, AtrResult-cases, err, ok}
use libreatrust.Types.{RouteDecision, RouteHit, SessionMaterial, direct, managed}
use libreatrust.Map.{insert, lookup, lookup-insert, lookup-remove}
use libreatrust.Client.{AtrClient, best_node_for}
use libreatrust.Conntrack.{PacketMeta, parse_packet_meta}
use libreatrust.Request.{Platform}
use libreatrust.Layer3.{L3Remote}
use libreatrust.Layer3.Tunnel.{
  L3Tunnel, WriteProgress, completed, connect_remote, packet_route, remote_for, via_remote,
  write_packet,
}

RouteDecision-cases : (d : RouteDecision) → (d ≡ direct) ⊎ ((hit : RouteHit) × (d ≡ managed hit))
RouteDecision-cases direct = inl refl
RouteDecision-cases (managed hit) = inr (hit, refl)

module _ (platform : Platform)
    (connect : AtrClient
      → SessionMaterial
      → Text
      → AtrResult (L3Remote × Option (List Ipv4Addr))) where
  -- A call keeps the remotes of the other groups.
  abbrev Keeps : Text → L3Tunnel → L3Tunnel → Type 0
  Keeps group tunnel tunnel' =
      (g : Text) → text_eq group g ≡ false → lookup g tunnel'.remotes ≡ lookup g tunnel.remotes

  connect_remote-Keeps :
      (group : Text) (tunnel : L3Tunnel)
      → Keeps group tunnel (connect_remote platform connect group tunnel).1
  unfolding connect_remote lookup
  connect_remote-Keeps group tunnel g other =
      elim (Option-cases (best_node_for tunnel.client group)) [
        | inl e ↦ rw (e, connect_remote) refl
        | inr (node, e) ↦
            rw (e, connect_remote)
              (elim (Option-cases tunnel.client.session) [
                | inl e' ↦ rw e' refl
                | inr (session, e') ↦
                    rw e' (elim (AtrResult-cases (connect tunnel.client session node)) [
                      | inr (d, f) ↦ rw f refl
                      | inl (opened, f) ↦
                          rw f (lookup-insert group g opened.0 tunnel.remotes ∙ rw other refl)
                    ])
              ])
      ]

  remote_for-Keeps :
      (group : Text) (tunnel : L3Tunnel)
      → Keeps group tunnel (remote_for platform connect group tunnel).1
  unfolding remote_for
  remote_for-Keeps group tunnel g other =
      let P : AtrResult L3Remote × L3Tunnel → Type 0 =
        λ r. lookup g (r.1).remotes ≡ lookup g tunnel.remotes in
      if_both P tunnel.close_flag _ _ refl (elim (Option-cases (lookup group tunnel.remotes)) [
        | inl e ↦ rw (e, remote_for) (connect_remote-Keeps group tunnel g other)
        | inr (remote, e) ↦
            rw (e, remote_for)
              (if_both P remote.close_flag _ _
                (connect_remote-Keeps group _ g other
                  ∙ lookup-remove group g tunnel.remotes
                  ∙ rw other refl)
                refl)
      ])

  via_remote-Keeps :
      (group : Text) (call : L3Remote → WriteProgress × L3Remote) (tunnel : L3Tunnel)
      → Keeps group tunnel (via_remote platform connect group call tunnel).1
  unfolding via_remote
  via_remote-Keeps group call tunnel g other =
      after (remote_for platform connect group tunnel) (remote_for-Keeps group tunnel g other)
    where
      after :
          (found : AtrResult L3Remote × L3Tunnel)
          → lookup g (found.1).remotes ≡ lookup g tunnel.remotes
          → lookup g
              ((elim found.0 as (λ r. WriteProgress × L3Tunnel) [
                | err e ↦ (completed (err e), found.1)
                | ok remote ↦ (
                  (call remote).0,
                  record found.1 { remotes = insert group (call remote).1 (found.1).remotes },
                )
              ]).1
                ).remotes
            ≡ lookup g tunnel.remotes
      after (err e, t) h = h
      after (ok remote, t) h = lookup-insert group g (call remote).1 t.remotes ∙ rw other refl ∙ h

  -- The packet is one that the client routes through the group.
  pub record IsRoutedTo (client : AtrClient) (packet : List ℕ) (group : Text) : Type 0 where
    pub meta : PacketMeta
    pub hit : RouteHit
    pub parsed : parse_packet_meta packet ≡ ok meta
    pub route : packet_route client meta ≡ managed hit
    pub same_group : hit.node_group_id ≡ group

  -- Writing a packet leaves the remote of a node group as it was, unless the packet's destination
  -- is routed through this group; so a packet whose destination is not managed, or that is no
  -- IPv4 packet, reaches no remote.
  pub write_packet-IsRoutedTo :
      (packet : List ℕ) (tunnel : L3Tunnel) (group : Text)
      → (lookup group (write_packet platform connect packet tunnel).1.remotes
          ≡ lookup group tunnel.remotes)
        ⊎ IsRoutedTo tunnel.client packet group
  unfolding write_packet lookup
  write_packet-IsRoutedTo packet tunnel group = elim (AtrResult-cases (parse_packet_meta packet)) [
    | inr (d, e) ↦ inl (rw (e, write_packet) refl)
    | inl (meta, e) ↦ elim (RouteDecision-cases (packet_route tunnel.client meta)) [
      | inl f ↦ inl (rw (e, write_packet) (rw f refl))
      | inr (hit, f) ↦ elim (Bool-cases (text_eq hit.node_group_id group)) [
        | inl same ↦ inr (record {
          meta = meta;
          hit = hit;
          parsed = e;
          route = f;
          same_group = (text_eq_iff hit.node_group_id group).0 same;
        })
        | inr other ↦
            inl (
              rw (e, write_packet) (rw f (via_remote-Keeps hit.node_group_id _ tunnel group other)))
      ]
    ]
  ]

  -- What `connect` gives is open.
  abbrev pub OpensRemotes : Type 0
  OpensRemotes =
      (client : AtrClient) (session : SessionMaterial) (node : Text)
      (opened : L3Remote × Option (List Ipv4Addr))
      → connect client session node ≡ ok opened
      → (opened.0).close_flag ≡ false

  -- An open remote that the tunnel holds for a group is what it finds again.
  held_again :
      (group : Text) (tunnel : L3Tunnel) (remote : L3Remote)
      → tunnel.close_flag ≡ false
      → lookup group tunnel.remotes ≡ some remote
      → remote.close_flag ≡ false
      → remote_for platform connect group tunnel ≡ (ok remote, tunnel)
  unfolding remote_for
  held_again group tunnel remote opened held fresh =
      if_false tunnel.close_flag _ _ opened
      ∙ rw (held, remote_for) (if_false remote.close_flag _ _ fresh)

  abbrev IsHeld : Text → L3Remote → L3Tunnel → Type 0
  IsHeld group remote tunnel =
      (tunnel.close_flag ≡ false)
      × (lookup group tunnel.remotes ≡ some remote)
      × (remote.close_flag ≡ false)

  connect_remote-IsHeld :
      (opens : OpensRemotes) (group : Text) (tunnel : L3Tunnel) (remote : L3Remote)
      → tunnel.close_flag ≡ false
      → (connect_remote platform connect group tunnel).0 ≡ ok remote
      → IsHeld group remote (connect_remote platform connect group tunnel).1
  unfolding connect_remote lookup
  connect_remote-IsHeld opens group tunnel remote running =
      elim (Option-cases (best_node_for tunnel.client group)) [
        | inl e ↦ rw (e, connect_remote) (λ found. absurd (cc found))
        | inr (node, e) ↦
            rw (e, connect_remote)
              (elim (Option-cases tunnel.client.session) [
                | inl e' ↦ rw e' (λ found. absurd (cc found))
                | inr (session, e') ↦
                    rw e' (elim (AtrResult-cases (connect tunnel.client session node)) [
                      | inr (d, f) ↦ rw f (λ found. absurd (cc found))
                      | inl (opened, f) ↦ rw f (λ found.
                          let same : opened.0 ≡ remote = cc in
                          (
                            running,
                            lookup-insert group group opened.0 tunnel.remotes
                                ∙ rw (text_eq_refl group) (ap some same),
                            subst (λ r. r.close_flag ≡ false) same
                                (opens tunnel.client session node opened f),
                          ))
                    ])
              ])
      ]

  remote_for-IsHeld :
      (opens : OpensRemotes) (group : Text) (tunnel : L3Tunnel) (remote : L3Remote)
      → (remote_for platform connect group tunnel).0 ≡ ok remote
      → IsHeld group remote (remote_for platform connect group tunnel).1
  unfolding remote_for
  remote_for-IsHeld opens group tunnel remote =
      let P : AtrResult L3Remote × L3Tunnel → Type 0 =
        λ r. r.0 ≡ ok remote → IsHeld group remote r.1 in
      elim (Bool-cases tunnel.close_flag) [
        | inl closed ↦
            subst P (sym (if_true tunnel.close_flag _ _ closed)) (λ found. absurd (cc found))
        | inr running ↦
            subst P (sym (if_false tunnel.close_flag _ _ running))
              (elim (Option-cases (lookup group tunnel.remotes)) [
                | inl e ↦
                    rw (e, remote_for) (connect_remote-IsHeld opens group tunnel remote running)
                | inr (known, e) ↦
                    rw (e, remote_for)
                      (elim (Bool-cases known.close_flag) [
                        | inl stale ↦
                            subst P (sym (if_true known.close_flag _ _ stale))
                              (connect_remote-IsHeld opens group _ remote running)
                        | inr fresh ↦ subst P (sym (if_false known.close_flag _ _ fresh)) (λ found.
                            let same : known ≡ remote = cc in
                            (
                              running,
                              e ∙ ap some same,
                              subst (λ r. r.close_flag ≡ false) same fresh,
                            ))
                      ])
              ])
      ]

-- Where a new remote is open, the remote that a group has been given is open, and the next call
-- for the group finds the same remote and changes nothing. It connects no second one: this result
-- is the same for whatever `connect'` takes the place of `connect` in the second call, also one
-- that fails.
pub remote_for-again :
    (platform : Platform)
    (connect connect' : AtrClient
      → SessionMaterial
      → Text
      → AtrResult (L3Remote × Option (List Ipv4Addr)))
    (opens : OpensRemotes platform connect) (group : Text) (tunnel tunnel' : L3Tunnel)
    (remote : L3Remote)
    → remote_for platform connect group tunnel ≡ (ok remote, tunnel')
    → (remote.close_flag ≡ false)
      × (remote_for platform connect' group tunnel' ≡ (ok remote, tunnel'))
remote_for-again platform connect connect' opens group tunnel tunnel' remote e =
    let held : IsHeld platform connect group remote (remote_for platform connect group tunnel).1 =
      remote_for-IsHeld platform connect opens group tunnel remote (ap (λ r. r.0) e) in
    let after : IsHeld platform connect group remote tunnel' =
      subst (λ r. IsHeld platform connect group remote r.1) e held in
    (after.2, held_again platform connect' group tunnel' remote after.0 after.1 after.2)
