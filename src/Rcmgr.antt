-- ===== src/Rcmgr.antt =====
-- rcmgr.go and internal/fd: the limits that the resource manager of libp2p is given. The
-- calculations on them, of go-libp2p's resource-manager, are parameters.
pub mod Fd
pub mod Bounds
use someguy.Prelude.{
  ℕ, zero, ◌+◌, ◌*◌, ◌/◌, Bool, true, false, Option, none, some, if◌then◌else◌, ltb, ◌==◌,
}
use someguy.Prelude.Int.{ℤ, pos, negsuc, ltb_ℤ, wrap64, quot_ℤ, double64}

-- A LimitVal or LimitVal64 is a number: of what is allowed, or one of the two constants of Rcmgr.
pub record ResourceLimits : Type 0 where
  pub memory : ℤ
  pub fd : ℤ
  pub conns : ℤ
  pub conns_inbound : ℤ
  pub conns_outbound : ℤ
  pub streams : ℤ
  pub streams_inbound : ℤ
  pub streams_outbound : ℤ

pub record PartialLimitConfig : Type 0 where
  pub system : ResourceLimits
  pub transient : ResourceLimits
  pub allowlisted_system : ResourceLimits
  pub allowlisted_transient : ResourceLimits
  pub service_default : ResourceLimits
  pub service_peer_default : ResourceLimits
  pub protocol_default : ResourceLimits
  pub protocol_peer_default : ResourceLimits
  pub conn : ResourceLimits
  pub stream : ResourceLimits
  pub peer_default : ResourceLimits

-- C: rcmgr.ConcreteLimitConfig.
pub record Rcmgr (C : Type 0) : Type 0 where
  pub unlimited : ℤ
  pub default_limit : ℤ
  pub infinite_resource_limits : ResourceLimits
  -- The default limits and those of libp2p's services, scaled to a memory and a number of files.
  pub scaled : ℤ → ℤ → C
  pub empty_config : C
  pub build : PartialLimitConfig → C → C
  pub to_partial_limit_config : C → PartialLimitConfig

abbrev mebibyte : ℕ
mebibyte = 1048576

abbrev is_zero : ℤ → Bool
is_zero (pos n) = n == zero
is_zero (negsuc n) = false

-- `share` is uint64(float64(memory.TotalMemory()) * 0.85).
unfoldable pub memory_or_share : ℕ → ℕ → ℕ
memory_or_share share max_memory = if max_memory == zero then share else max_memory

unfoldable pub fd_or_half : ℤ → ℤ → ℤ
fd_or_half num_fds max_fd = if is_zero max_fd then quot_ℤ num_fds 2 else max_fd

abbrev at_least : ℤ → ℤ → ℤ
at_least n bound = if ltb_ℤ n bound then bound else n

unfoldable pub max_inbound_conns : ℤ → ℤ → ℤ
max_inbound_conns conns_inbound conn_mgr_high_water =
    at_least (at_least conns_inbound (double64 conn_mgr_high_water)) (pos 800)

-- max_inbound * streams / conns in int64, for limits that are positive.
abbrev scaled_streams : ℤ → ℤ → ℤ → ℤ
scaled_streams (pos m) (pos s) (pos c) = quot_ℤ (wrap64 (m * s)) c
scaled_streams m s c = s

-- LimitVal64(uint64) and LimitVal of an int64 on 64-bit machines.
module _ {C : Type 0} (rcmgr : Rcmgr C) where
  unfoldable pub partial_limits : ℕ → ℤ → PartialLimitConfig
  partial_limits max_memory max_fd =
      let system_conns_inbound = max_memory / mebibyte in
      record {
        system = record {
          memory = wrap64 max_memory;
          fd = max_fd;
          conns = rcmgr.unlimited;
          conns_inbound = pos system_conns_inbound;
          conns_outbound = rcmgr.unlimited;
          streams = rcmgr.unlimited;
          streams_inbound = rcmgr.unlimited;
          streams_outbound = rcmgr.unlimited;
        };
        transient = record {
          memory = wrap64 (max_memory / 4);
          fd = quot_ℤ max_fd 4;
          conns = rcmgr.unlimited;
          conns_inbound = pos (system_conns_inbound / 4);
          conns_outbound = rcmgr.unlimited;
          streams = rcmgr.unlimited;
          streams_inbound = rcmgr.unlimited;
          streams_outbound = rcmgr.unlimited;
        };
        allowlisted_system = rcmgr.infinite_resource_limits;
        allowlisted_transient = rcmgr.infinite_resource_limits;
        service_default = rcmgr.infinite_resource_limits;
        service_peer_default = rcmgr.infinite_resource_limits;
        protocol_default = rcmgr.infinite_resource_limits;
        protocol_peer_default = rcmgr.infinite_resource_limits;
        conn = rcmgr.infinite_resource_limits;
        stream = rcmgr.infinite_resource_limits;
        peer_default = record {
          memory = rcmgr.unlimited;
          fd = rcmgr.unlimited;
          conns = rcmgr.unlimited;
          conns_inbound = rcmgr.default_limit;
          conns_outbound = rcmgr.unlimited;
          streams = rcmgr.unlimited;
          streams_inbound = rcmgr.default_limit;
          streams_outbound = rcmgr.unlimited;
        };
      }

  unfoldable pub override_inbound : ℤ → ResourceLimits → ResourceLimits
  unfolding max_inbound_conns
  override_inbound conn_mgr_high_water limits =
      if ltb_ℤ rcmgr.default_limit limits.conns_inbound
      then record limits {
        conns_inbound = max_inbound_conns limits.conns_inbound conn_mgr_high_water;
        streams_inbound =
            if ltb_ℤ rcmgr.default_limit limits.streams_inbound
            then scaled_streams (max_inbound_conns limits.conns_inbound conn_mgr_high_water)
                limits.streams_inbound limits.conns_inbound
            else limits.streams_inbound;
      }
      else limits

  unfoldable pub make_resource_manager_config : ℕ → ℤ → ℕ → ℤ → ℤ → C
  unfolding memory_or_share fd_or_half partial_limits override_inbound
  make_resource_manager_config share num_fds max_memory max_fd conn_mgr_high_water =
      let memory = memory_or_share share max_memory in
      let fd = fd_or_half num_fds max_fd in
      let limits =
        rcmgr.to_partial_limit_config
          (rcmgr.build (partial_limits memory fd) (rcmgr.scaled (wrap64 memory) fd)) in
      rcmgr.build (record limits { system = override_inbound conn_mgr_high_water limits.system })
        rcmgr.empty_config

  -- The limits that NewFixedLimiter gets.
  unfoldable pub make_resource_mgrs : ℕ → ℤ → ℕ → ℤ → ℤ → C
  unfolding make_resource_manager_config
  make_resource_mgrs share num_fds max_memory max_fd conn_mgr_high_water =
      make_resource_manager_config share num_fds (memory_or_share share max_memory)
        (fd_or_half num_fds max_fd) conn_mgr_high_water
