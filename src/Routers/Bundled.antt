-- ===== src/Routers/Bundled.antt =====
-- bundledDHT of server_dht.go: the DHT of type accelerated, a client with the full routing table and a
-- standard one.
use someguy.Prelude.{ℕ, ◌≡◌, ◌↔◌, Bool, Option, none, List, if◌then◌else◌}
use someguy.Prelude.Bytes.{Bytes}
use someguy.Records.{GoError, join_errors}
use someguy.Routers.Compose.{Fallible, ok, fails}
use someguy.Routers.Found.{join_errors-none}
use someguy.Routers.Libp2p.{AddrInfo}

-- routing.Routing of go-libp2p: what its calls return, a channel as the list of what it delivers.
pub record Routing (A : Type 0) : Type 0 where
  pub provide : Bytes → (broadcast : Bool) → Option GoError
  pub find_providers_async : Bytes → (count : ℕ) → List (AddrInfo A)
  pub find_peer : Bytes → Fallible (AddrInfo A)
  pub put_value : Bytes → Bytes → Option GoError
  pub get_value : Bytes → Fallible Bytes
  pub search_value : Bytes → Fallible (List Bytes)
  pub bootstrap : Option GoError
  pub close : Option GoError

pub record BundledDht (A : Type 0) : Type 0 where
  pub standard : Routing A
  pub full_rt : Routing A

-- `new_standard` and `new_full_rt` are what dht.New and fullrt.NewFullRT return.
unfoldable pub new_bundled_dht :
    {A : Type 0} → Fallible (Routing A) → Fallible (Routing A) → Fallible (BundledDht A)
new_bundled_dht (fails e) new_full_rt = fails e
new_bundled_dht (ok s) (fails e) = fails e
new_bundled_dht (ok s) (ok f) = ok (record { standard = s; full_rt = f })

module _ {A : Type 0} where
  -- getDHT; `ready` is what fullRT.Ready returns at the time.
  unfoldable pub active_dht : (ready : Bool) → BundledDht A → Routing A
  active_dht ready b = if ready then b.full_rt else b.standard

  -- The methods of bundledDHT.
  unfoldable pub bundled_routing : (ready : Bool) → BundledDht A → Routing A
  unfolding active_dht join_errors
  bundled_routing ready b =
      let dht = active_dht ready b in
      record {
        provide = dht.provide;
        find_providers_async = dht.find_providers_async;
        find_peer = dht.find_peer;
        put_value = dht.put_value;
        get_value = dht.get_value;
        search_value = dht.search_value;
        bootstrap = b.standard.bootstrap;
        close = join_errors b.full_rt.close b.standard.close;
      }

  -- Close returns no error just when both clients closed without one, whichever of them is in use.
  bundled_routing-close :
      (ready : Bool) (b : BundledDht A)
      → ((bundled_routing ready b).close ≡ none)
        ↔ ((b.full_rt.close ≡ none) × (b.standard.close ≡ none))
  unfolding bundled_routing
  bundled_routing-close ready b = join_errors-none b.full_rt.close b.standard.close
