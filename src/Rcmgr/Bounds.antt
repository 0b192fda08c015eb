-- ===== src/Rcmgr/Bounds.antt =====
-- What makeResourceMgrs guarantees of the limits of inbound connections.
use someguy.Prelude.{ℕ, ◌*◌, ◌/◌, ◌^◌, ◌≤◌, ◌<◌, max, ◌≡◌, refl, ◌∙◌, true, arith}
use someguy.Prelude.Int.{ℤ, pos, negsuc, ltb_ℤ, wrap64}
use someguy.Rcmgr.{
  Rcmgr, ResourceLimits, PartialLimitConfig, partial_limits, max_inbound_conns, override_inbound,
  memory_or_share, fd_or_half, make_resource_manager_config, make_resource_mgrs,
}

-- Build gives a limit that is set, be it a number or unlimited, and looks the others up in the
-- second configuration; what it gives is read back as it is. The largest int stands for unlimited.
pub record RcmgrLaws {C : Type 0} (rcmgr : Rcmgr C) : Type 0 where
  pub unlimited-eq : rcmgr.unlimited ≡ negsuc 0
  pub default_limit-eq : rcmgr.default_limit ≡ pos 0
  pub build_conns :
      (p : PartialLimitConfig) (c : C)
      → ltb_ℤ (pos 0) p.system.conns_inbound ≡ true
      → ltb_ℤ p.system.conns_inbound (pos 9223372036854775807) ≡ true
      → (rcmgr.to_partial_limit_config (rcmgr.build p c)).system.conns_inbound
        ≡ p.system.conns_inbound
  pub build_streams :
      (p : PartialLimitConfig) (c : C)
      → p.system.streams_inbound ≡ negsuc 0
      → (rcmgr.to_partial_limit_config (rcmgr.build p c)).system.streams_inbound ≡ negsuc 0

max_inbound_conns-max :
    (n high : ℕ)
    → high < 2 ^ 62
    → max_inbound_conns (pos n) (pos high) ≡ pos (max 800 (max (2 * high) n))
unfolding max_inbound_conns
max_inbound_conns-max n high h = ground arith

memory_or_share_twice :
    (share m : ℕ) → memory_or_share share (memory_or_share share m) ≡ memory_or_share share m
unfolding memory_or_share
memory_or_share_twice share m = ground arith

module _ {C : Type 0} (rcmgr : Rcmgr C) (laws : RcmgrLaws rcmgr) where
  override_inbound_lem :
      (n high : ℕ) (limits : ResourceLimits)
      → high < 2 ^ 62
      → 0 < n
      → limits.conns_inbound ≡ pos n
      → limits.streams_inbound ≡ negsuc 0
      → ((override_inbound rcmgr (pos high) limits).conns_inbound
          ≡ pos (max 800 (max (2 * high) n)))
        × ((override_inbound rcmgr (pos high) limits).streams_inbound ≡ negsuc 0)
  unfolding override_inbound
  override_inbound_lem n high limits h k c s =
      let m = max_inbound_conns-max n high h in
      (ground (arith, laws.default_limit-eq), ground (arith, laws.default_limit-eq))

  abbrev overridden : PartialLimitConfig → C → ℕ → ResourceLimits
  overridden p c high =
      let limits = rcmgr.to_partial_limit_config (rcmgr.build p c) in
      (rcmgr.to_partial_limit_config (
        rcmgr.build (record limits { system = override_inbound rcmgr (pos high) limits.system })
          rcmgr.empty_config)).system

  overridden_inbound :
      (p : PartialLimitConfig) (c : C) (n high : ℕ)
      → high < 2 ^ 62
      → 0 < n
      → n < 2 ^ 62
      → p.system.conns_inbound ≡ pos n
      → p.system.streams_inbound ≡ negsuc 0
      → ((overridden p c high).conns_inbound ≡ pos (max 800 (max (2 * high) n)))
        × ((overridden p c high).streams_inbound ≡ negsuc 0)
  overridden_inbound p c n high h k l e s =
      let limits = rcmgr.to_partial_limit_config (rcmgr.build p c) in
      let conns : limits.system.conns_inbound ≡ pos n =
        laws.build_conns p c (rw e (ground arith)) (rw e (ground arith)) ∙ e in
      let (new_conns, new_streams) =
        override_inbound_lem n high limits.system h k conns (laws.build_streams p c s) in
      let new = record limits { system = override_inbound rcmgr (pos high) limits.system } in
      (
        laws.build_conns new rcmgr.empty_config (rw new_conns (ground arith))
              (rw new_conns (ground arith))
            ∙ new_conns,
        laws.build_streams new rcmgr.empty_config new_streams,
      )

  config_inbound :
      (share : ℕ) (num_fds : ℤ) (max_memory : ℕ) (max_fd : ℤ) (high : ℕ)
      → 1048576 ≤ memory_or_share share max_memory
      → memory_or_share share max_memory < 2 ^ 64
      → high < 2 ^ 62
      → let limits =
          (rcmgr.to_partial_limit_config (
            make_resource_manager_config rcmgr share num_fds max_memory max_fd
              (pos high))).system in
        (limits.conns_inbound
          ≡ pos (max 800 (max (2 * high) (memory_or_share share max_memory / 1048576))))
        × (limits.streams_inbound ≡ negsuc 0)
  unfolding make_resource_manager_config partial_limits
  config_inbound share num_fds max_memory max_fd high h l k =
      let memory = memory_or_share share max_memory in
      let fd = fd_or_half num_fds max_fd in
      overridden_inbound (partial_limits rcmgr memory fd) (rcmgr.scaled (wrap64 memory) fd)
        (memory / 1048576) high k (omega arith) (omega arith) refl laws.unlimited-eq

  -- The server may have as many inbound connections as its memory has MiB, but never less than 800,
  -- and never less than twice the high water mark of the connection manager; inbound
  -- streams stay unlimited. The memory, given or a share of what the machine has, is 1 MiB or more, and less than
  -- 2^64 as an uint64 is, and the mark is less than 2^62.
  pub make_resource_mgrs-max :
      (share : ℕ) (num_fds : ℤ) (max_memory : ℕ) (max_fd : ℤ) (high : ℕ)
      → 1048576 ≤ memory_or_share share max_memory
      → memory_or_share share max_memory < 2 ^ 64
      → high < 2 ^ 62
      → let limits =
          (rcmgr.to_partial_limit_config
            (make_resource_mgrs rcmgr share num_fds max_memory max_fd (pos high))).system in
        (limits.conns_inbound
          ≡ pos (max 800 (max (2 * high) (memory_or_share share max_memory / 1048576))))
        × (limits.streams_inbound ≡ negsuc 0)
  unfolding make_resource_mgrs
  make_resource_mgrs-max share num_fds max_memory max_fd high h l k =
      let again = memory_or_share_twice share max_memory in
      let (conns, streams) =
        config_inbound share num_fds (memory_or_share share max_memory) (fd_or_half num_fds max_fd)
          high (rw again h) (rw again l) k in
      (conns ∙ rw again, streams)
