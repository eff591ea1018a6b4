-- ===== src/Ipc/Server/Protection.antt =====
-- What a peer can do to the blocklist by map update requests.
use falx_v.Base.{
  ℕ, ◌≡◌, ◌⊎◌, ap, ◌∙◌, inl, inr, true, false, none, some, ◌==◌, if◌then◌else◌, Option-cases,
  Bool-cases, arith,
}
use falx_v.Base.Time.{unix}
use falx_v.Bpfmaps.Types.{IpAddr}
use falx_v.Bpfmaps.Kernel.{KernelMaps, UpdateLaws}
use falx_v.Bpfmaps.Manager.{Manager, zero_entry, absolute, has_expired, block_ipv4, is_blocked_ipv4}
use falx_v.Bpfmaps.Manager.Blocklist.{block_ipv4-is_blocked_ipv4, block_ipv4-eq-some}
use falx_v.Ipc.Protocol.{Frame}
use falx_v.Ipc.Server.{
  Codec, Conn, Server, MapUpdateReq, map_update_ack, is_protected_ip, default_actor, update_entry,
  is_update_action, answer, map_update, apply_map_update, conn_allow, push_verdicts, push_alert,
  dispatch,
}

module _ {W : Type 0} (K : KernelMaps W) (codec : Codec) where
  -- A manager after a block of an address that is not protected: the block was done, or its error
  -- left the kernel's maps as they were.
  abbrev pub Blocks : Manager W → Manager W → ℕ → MapUpdateReq → Type 0
  Blocks m m' now req =
      (ip : IpAddr) × (codec.parse_ip req.src_ip ≡ some ip)
      × (is_protected_ip ip ≡ false)
      × (is_update_action req.action ≡ true)
      × (m' ≡ (block_ipv4 K m now ip (update_entry req) (default_actor req.actor)).0)
      × (((block_ipv4 K m now ip (update_entry req) (default_actor req.actor)).1 ≡ none)
          ⊎ (m'.world ≡ m.world))

  done-or-kept :
      (m m' : Manager W) (now : ℕ) (ip : IpAddr) (req : MapUpdateReq)
      → m' ≡ (block_ipv4 K m now ip (update_entry req) (default_actor req.actor)).0
      → ((block_ipv4 K m now ip (update_entry req) (default_actor req.actor)).1 ≡ none)
        ⊎ (m'.world ≡ m.world)
  done-or-kept m m' now ip req same =
      let block = block_ipv4 K m now ip (update_entry req) (default_actor req.actor) in
      elim (Option-cases block.1) [
        | inl ok ↦ inl ok
        | inr (x, failed) ↦ inr (
            ap (λ z. z.world) same
            ∙ block_ipv4-eq-some K m now ip (update_entry req) (default_actor req.actor) x failed)
      ]

  map_update-Blocks :
      (s : Server W) (now seq : ℕ) (req : MapUpdateReq)
      → ((map_update K codec s now seq req).0.bpf_mgr ≡ s.bpf_mgr)
        ⊎ Blocks s.bpf_mgr (map_update K codec s now seq req).0.bpf_mgr now req
  unfolding map_update answer
  map_update-Blocks s now seq req = elim (Option-cases (codec.parse_ip req.src_ip)) [
    | inl e ↦ inl (ground arith)
    | inr (ip, e) ↦ elim (Bool-cases (is_protected_ip ip)) [
      | inl p ↦ inl (ground arith)
      | inr p ↦ elim (Bool-cases (is_update_action req.action)) [
        | inl a ↦
            let same : (map_update K codec s now seq req).0.bpf_mgr
                ≡ (block_ipv4 K s.bpf_mgr now ip (update_entry req) (default_actor req.actor)).0 =
              ground arith in
            inr (ip, e, p, a, same, done-or-kept s.bpf_mgr _ now ip req same)
        | inr a ↦ inl (ground arith)
      ]
    ]
  ]

  -- While a frame of a peer is handled, the manager is left as it was, or the frame is a map update
  -- request and the manager is the one after the block that it asks for, of an address that is in
  -- no protected network; and if that block reports an error, the kernel's maps are as they were.
  -- Verdicts, which a frame only queues, are applied later.
  pub dispatch-Blocks :
      (s : Server W) (c : Conn) (now : ℕ) (frame : Frame)
      → ((dispatch K codec s c now frame).0.bpf_mgr ≡ s.bpf_mgr)
        ⊎ ((req : MapUpdateReq) × (frame.header.msg_type ≡ 0x82)
            × (codec.map_update_req frame.payload ≡ some req)
            × Blocks s.bpf_mgr (dispatch K codec s c now frame).0.bpf_mgr now req)
  unfolding dispatch push_verdicts push_alert apply_map_update
  dispatch-Blocks s c now frame = elim (Option-cases (codec.map_update_req frame.payload)) [
    | inl e ↦ inl (ground arith)
    | inr (req, e) ↦
        let allowed = conn_allow c.rl now in
        let done = map_update-Blocks s now frame.header.seq req in
        elim (Bool-cases (frame.header.msg_type == 0x82)) [
          | inl t ↦ elim (Bool-cases allowed.1) [
            | inl a ↦
                let same : (dispatch K codec s c now frame).0.bpf_mgr
                    ≡ (map_update K codec s now frame.header.seq req).0.bpf_mgr =
                  ground arith in
                rw same (elim done [
                  | inl kept ↦ inl kept
                  | inr blocks ↦ inr (req, ground arith, e, blocks)
                ])
            | inr a ↦ inl (ground arith)
          ]
          | inr t ↦ inl (ground arith)
        ]
  ]

  -- A request that is acknowledged has blocked its address: the address is in no protected
  -- network, and a lookup at any later time finds the entry that was asked for, until it expires.
  pub map_update-ack :
      (s s' : Server W) (now later seq : ℕ) (req : MapUpdateReq)
      → UpdateLaws K.blocklist_v4
      → map_update K codec s now seq req ≡ (s', map_update_ack seq)
      → (ip : IpAddr) × (codec.parse_ip req.src_ip ≡ some ip)
        × (is_protected_ip ip ≡ false)
        × (is_blocked_ipv4 K s'.bpf_mgr later ip ≡ (
            if has_expired (absolute (update_entry req) now) (unix later)
            then (false, zero_entry, none)
            else (true, absolute (update_entry req) now, none)))
  unfolding map_update answer
  map_update-ack s s' now later seq req laws h = elim (Option-cases (codec.parse_ip req.src_ip)) [
    | inl e ↦ absurd (ground arith)
    | inr (ip, e) ↦ (
      ip,
      e,
      ground arith,
      block_ipv4-is_blocked_ipv4 K s.bpf_mgr s'.bpf_mgr now later ip (update_entry req)
          (default_actor req.actor) laws (ground arith),
    )
  ]
