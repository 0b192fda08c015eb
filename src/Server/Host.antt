-- ===== src/Server/Host.antt =====
-- newHost of server.go: the options of the libp2p host. Opening it is a call of go-libp2p.
use someguy.Prelude.{ℕ, Option, none, some, List, ◌++◌, is_empty, if◌then◌else◌}
use someguy.Prelude.Bytes.{Bytes, codes}
use someguy.Prelude.Int.{ℤ}
use someguy.Records.{GoError}
use someguy.Rcmgr.{Rcmgr, make_resource_mgrs}

-- The part of config that newHost reads.
pub record HostConfig : Type 0 where
  pub libp2p_listen_address : List Bytes
  pub conn_mgr_low : ℤ
  pub conn_mgr_hi : ℤ
  pub conn_mgr_grace : ℤ
  pub max_memory : ℕ
  pub max_fd : ℤ

-- The options that depend on the configuration; no listen addresses are the default ones of libp2p.
pub record HostOptions (C : Type 0) : Type 0 where
  pub user_agent : Bytes
  pub limits : C
  pub listen : Option (List Bytes)

-- connmgr.NewConnManager, rcmgr.NewResourceManager and libp2p.New, by their errors; the memory to
-- take when none is given, and the number of files that may be open.
pub record HostServices (C : Type 0) : Type 0 where
  pub rcmgr : Rcmgr C
  pub share : ℕ
  pub num_fds : ℤ
  pub new_conn_manager : ℤ → ℤ → ℤ → Option GoError
  pub new_resource_manager : C → Option GoError
  pub new_libp2p : HostOptions C → Option GoError

unfoldable pub host_options : {C : Type 0} → Bytes → HostConfig → C → HostOptions C
host_options version cfg limits = record {
  user_agent = codes "someguy/" ++ version;
  limits = limits;
  listen = if is_empty cfg.libp2p_listen_address then none else some cfg.libp2p_listen_address;
}

-- The error of newHost.
unfoldable pub new_host : {C : Type 0} → HostServices C → Bytes → HostConfig → Option GoError
unfolding make_resource_mgrs host_options
new_host host version cfg =
    let limits =
      make_resource_mgrs host.rcmgr host.share host.num_fds cfg.max_memory cfg.max_fd
        cfg.conn_mgr_hi in
    elim (host.new_conn_manager cfg.conn_mgr_low cfg.conn_mgr_hi cfg.conn_mgr_grace) [
      | some e ↦ some e
      | none ↦ elim (host.new_resource_manager limits) [
        | some e ↦ some e
        | none ↦ host.new_libp2p (host_options version cfg limits)
      ]
    ]
