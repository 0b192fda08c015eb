-- ===== src/Client.antt =====
-- client.go: what the commands print of the answers, and the errors that they return.
pub mod Prints
use someguy.Prelude.{Bool, true, false, ◌||◌, Option, none, some, List, [], ◌∷◌, if◌then◌else◌}
use someguy.Prelude.Bytes.{Bytes}
use someguy.Records.{
  GoError, canceled, deadline_exceeded, joined, Result, Record, peer_record, bitswap_record,
  other_record, PeerRecord,
}
use someguy.Routers.Compose.{Fallible, ok, fails}

-- errors.Is(err, context.DeadlineExceeded): the error, or one of those that are joined.
unfoldable pub is_deadline_exceeded : GoError → Bool
is_deadline_exceeded deadline_exceeded = true
is_deadline_exceeded (joined d e) = is_deadline_exceeded d || is_deadline_exceeded e
is_deadline_exceeded e = false

-- What was printed, and the error that the command returns.
pub record Output (T : Type 0) : Type 0 where
  pub printed : List T
  pub err : Option GoError

abbrev after_printing : {T : Type 0} → T → Output T → Output T
after_printing t out = record out { printed = t ∷ out.printed }

module _ {T : Type 0} (print : T → Option GoError) (nil_value : T) where
  abbrev value_of : Option T → T
  value_of none = nil_value
  value_of (some t) = t

  -- The loop over the results of an iterator; `print` is the error of printing a value.
  unfoldable pub print_results : List (Result T) → Output T
  unfolding is_deadline_exceeded
  print_results [] = record { printed = []; err = none }
  print_results (res ∷ results) =
      let rest = print_results results in
      elim res.err [
        | some e ↦
            if is_deadline_exceeded e
            then record { printed = []; err = none }
            else record { printed = []; err = some e }
        | none ↦ elim (print (value_of res.val)) [
          | some e ↦ record { printed = []; err = some e }
          | none ↦ after_printing (value_of res.val) rest
        ]
      ]

  -- findProviders, findPeers and getClosestPeers: a client K for the endpoint, and its answer.
  unfoldable pub find_and_print :
      {K : Type 0} → (Bytes → Fallible K) → (K → Fallible (List (Result T))) → Bytes → Output T
  unfolding print_results
  find_and_print new_client find endpoint = elim (new_client endpoint) [
    | fails e ↦ record { printed = []; err = some e }
    | ok drc ↦ elim (find drc) [
      | fails e ↦ record { printed = []; err = some e }
      | ok results ↦ print_results results
    ]
  ]

-- How a value is printed: with fmt.Fprintln, whose errors are not read, or by the JSON encoder.
-- boxo's client gives each schema a value of its own type.
unfoldable pub print_record :
    {A : Type 0} → (encode : Record A → Option GoError) (pretty : Bool) → Record A → Option GoError
print_record encode false r = encode r
print_record encode true (peer_record r) = none
print_record encode true (bitswap_record r) = none
print_record encode true (other_record s b) = encode (other_record s b)

unfoldable pub print_peer :
    {A : Type 0}
    → (encode : PeerRecord A → Option GoError) (pretty : Bool) → PeerRecord A
    → Option GoError
print_peer encode false r = encode r
print_peer encode true r = none

-- K: clients, M: IPNS names, R: IPNS records. The nil record is what the code prints of a result
-- without a value and an error.
pub record RoutingClient (A K M R : Type 0) : Type 0 where
  pub new_client : Bytes → Fallible K
  pub find_providers : K → Bytes → Fallible (List (Result (Record A)))
  pub find_peers : K → Bytes → Fallible (List (Result (PeerRecord A)))
  pub get_closest_peers : K → Bytes → Fallible (List (Result (PeerRecord A)))
  pub get_ipns : K → M → Fallible R
  pub put_ipns : K → M → R → Option GoError
  pub encode_record : Record A → Option GoError
  pub encode_peer : PeerRecord A → Option GoError
  pub nil_record : Record A
  pub nil_peer : PeerRecord A
  -- rec.Value, rec.Sequence and rec.Validity as texts, rec.TTL with none for an error, and the codec.
  pub value : R → Fallible Bytes
  pub sequence : R → Fallible Bytes
  pub validity : R → Fallible Bytes
  pub ttl : R → Option Bytes
  pub marshal_record : R → Fallible Bytes
  pub unmarshal_record : Bytes → Fallible R

abbrev failed_with : {T : Type 0} → GoError → Output T
failed_with e = record { printed = []; err = some e }

abbrev then_print : {T U : Type 0} → Fallible T → (T → Output U) → Output U
then_print (fails e) f = failed_with e
then_print (ok t) f = f t

abbrev ttl_line : Option Bytes → List Bytes
ttl_line none = []
ttl_line (some ttl) = ttl ∷ []

module _ {A K M R : Type 0} (drc : RoutingClient A K M R) where
  unfoldable pub find_providers : Bytes → (endpoint : Bytes) → (pretty : Bool) → Output (Record A)
  unfolding find_and_print print_record
  find_providers key endpoint pretty =
      find_and_print (print_record drc.encode_record pretty) drc.nil_record drc.new_client
        (λ k. drc.find_providers k key) endpoint

  unfoldable pub find_peers : Bytes → (endpoint : Bytes) → (pretty : Bool) → Output (PeerRecord A)
  unfolding find_and_print print_peer
  find_peers pid endpoint pretty =
      find_and_print (print_peer drc.encode_peer pretty) drc.nil_peer drc.new_client
        (λ k. drc.find_peers k pid) endpoint

  unfoldable pub get_closest_peers :
      Bytes → (endpoint : Bytes) → (pretty : Bool) → Output (PeerRecord A)
  unfolding find_and_print print_peer
  get_closest_peers key endpoint pretty =
      find_and_print (print_peer drc.encode_peer pretty) drc.nil_peer drc.new_client
        (λ k. drc.get_closest_peers k key) endpoint

  -- The lines, without the names of the fields and the constant ones.
  unfoldable pub print_ipns : R → (pretty : Bool) → Output Bytes
  print_ipns rec false =
      then_print (drc.marshal_record rec) (λ raw. record { printed = raw ∷ []; err = none })
  print_ipns rec true = then_print (drc.value rec) (λ v. then_print (drc.sequence rec) (λ seq.
      then_print (drc.validity rec)
        (λ eol. record { printed = v ∷ seq ∷ eol ∷ ttl_line (drc.ttl rec); err = none })))

  unfoldable pub get_ipns : M → (endpoint : Bytes) → (pretty : Bool) → Output Bytes
  unfolding print_ipns
  get_ipns name endpoint pretty =
      then_print (drc.new_client endpoint)
        (λ k. then_print (drc.get_ipns k name) (λ rec. print_ipns rec pretty))

  unfoldable pub put_ipns : M → (record_bytes endpoint : Bytes) → Option GoError
  put_ipns name record_bytes endpoint = elim (drc.new_client endpoint) [
    | fails e ↦ some e
    | ok k ↦ elim (drc.unmarshal_record record_bytes) [
      | fails e ↦ some e
      | ok rec ↦ drc.put_ipns k name rec
    ]
  ]
