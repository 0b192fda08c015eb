-- ===== src/CachedRouter/Drains.antt =====
-- The rounds and lookups that lead an iterator of server_cached_router.go to its end.
use someguy.Prelude.{
  subst, ℕ, zero, suc, ◌<◌, ◌≡◌, ◌≢◌, refl, ap, inl, inr, List, [], ◌∷◌, length, All, List-cases,
  ℕ-cases, arith, Option-cases,
}
use someguy.Prelude.Bytes.{Bytes}
use someguy.Lru.{Lru}
use someguy.Multiaddr.{Multiaddr}
use someguy.AddrBook.{AddrBook}
use someguy.Records.{PeerRecord, Record, Result}
use someguy.Routers.Compose.{Fallible}
use someguy.CachedAddrBook.Types.{Limits, PeerState}
use someguy.CachedAddrBook.Probing.{release_find_peer_slot}
use someguy.CachedRouter.Fallback.{
  FallbackIter, Verdict, panics, ends, no_lookups, Round, take_value, Round, from_source,
  Background, finishes, releases, ends_lookup, cancels, ongoing_lookups,
}
use someguy.CachedRouter.Slots.{IsHeld, Round-IsHeld, Background-IsHeld, release_never_blocks}
use someguy.CachedRouter.Ends.{weight, Round-weight, Background-weight}
use someguy.CachedRouter.Reach.{Reachable, Reachable-IsHeld}
use someguy.CachedRouter.Named.{IsNamed, Round-IsNamed, Background-IsNamed, Reachable-IsNamed}
use someguy.CachedRouter.Progress.{IsReadable, HasNoNil, take_value-goes, lookup_ends}

module _ {B C A E : Type 0} ⦃m : Multiaddr A⦄ (limits : Limits) (book : AddrBook B A E)
    (cache : Lru C Bytes PeerState) where
  -- The step is no cancellation, and a lookup is answered by `answers`.
  abbrev pub AnsweredBy :
      (Bytes → Fallible (List (Result (PeerRecord A))))
      → (it it' : FallbackIter B C A) → Background limits book cache it it'
      → Type 0
  AnsweredBy answers it it' (finishes _ _ now answer pid before after r e i q) =
      answer ≡ answers pid
  AnsweredBy answers it it' (releases _ n cab' e q) = Unit
  AnsweredBy answers it it' (ends_lookup _ n e) = Unit
  AnsweredBy answers it it' (cancels _) = ⊥

  -- Rounds that do not panic and steps of the lookups.
  pub data Moves (answers : Bytes → Fallible (List (Result (PeerRecord A))))
      : FallbackIter B C A → FallbackIter B C A → Type 0 where
    stays : {it : FallbackIter B C A} → Moves answers it it
    next :
        {it it' : FallbackIter B C A} {p : Verdict × FallbackIter B C A}
        → Round limits book cache it p
        → p.0 ≢ panics
        → Moves answers p.1 it'
        → Moves answers it it'
    in_background :
        {it it₁ it' : FallbackIter B C A} (s : Background limits book cache it it₁)
        → AnsweredBy answers it it₁ s
        → Moves answers it₁ it'
        → Moves answers it it'

  -- The source is used up and no lookup is left.
  pub record IsDrained (it : FallbackIter B C A) : Type 0 where
    pub source_empty : it.source ≡ []
    pub no_lookup : ongoing_lookups it ≡ 0

  abbrev Drains : (Bytes → Fallible (List (Result (PeerRecord A)))) → FallbackIter B C A → Type 0
  Drains answers it = (it' : FallbackIter B C A) × Moves answers it it' × IsDrained it'

  record IsLive (others : ℕ) (it : FallbackIter B C A) : Type 0 where
    is_held : IsHeld others it
    named : All IsNamed it.running
    readable : All IsReadable it.source

  module _ (answers : Bytes → Fallible (List (Result (PeerRecord A))))
      (whole : (pid : Bytes) → HasNoNil (answers pid)) (others : ℕ) where
    -- What is left to show for each of the steps that an iterator can make.
    abbrev Below : ℕ → Type 0
    Below fuel = (it : FallbackIter B C A) → weight it < fuel → IsLive others it → Drains answers it

    works :
        (fuel : ℕ)
        → Below fuel
        → (it it₁ : FallbackIter B C A) (s : Background limits book cache it it₁)
        → AnsweredBy answers it it₁ s
        → weight it₁ < fuel
        → it₁.source ≡ it.source
        → IsLive others it
        → Drains answers it
    works fuel below it it₁ s a w e h =
        let (it', moves, drained) = below it₁ w (record {
          is_held = Background-IsHeld limits book cache others it it₁ s h.is_held;
          named = Background-IsNamed limits book cache it it₁ s h.named;
          readable = rw e h.readable;
        }) in
        (it', in_background s a moves, drained)

    reads :
        (fuel : ℕ)
        → Below fuel
        → (it : FallbackIter B C A) (v : Result (Record A)) (rest : List (Result (Record A)))
        → it.source ≡ v ∷ rest
        → weight it < suc fuel
        → IsLive others it
        → Drains answers it
    reads fuel below it v rest e w h =
        let it₀ : FallbackIter B C A = record it { source = rest } in
        let p : Verdict × FallbackIter B C A = take_value limits book cache 0 v it₀ in
        let s : Round limits book cache it p = from_source it 0 v rest e in
        let all : All IsReadable (v ∷ rest) = subst (All IsReadable) e h.readable in
        let goes : (p.0 ≢ panics) × (p.1.source ≡ rest) =
          take_value-goes limits book cache 0 v it₀ all.0 in
        let (it', moves, drained) =
          below p.1 (omega (arith, Round-weight limits book cache it p s, w)) (record {
            is_held = Round-IsHeld limits book cache others it p s h.is_held;
            named = Round-IsNamed limits book cache it p s h.named;
            readable = rw goes.1 all.1;
          }) in
        (it', next s goes.0 moves, drained)

    runs :
        (fuel : ℕ)
        → Below fuel
        → (it : FallbackIter B C A) (r : PeerRecord A) (rest : List (PeerRecord A))
        → it.running ≡ r ∷ rest
        → weight it < suc fuel
        → IsLive others it
        → Drains answers it
    runs fuel below it r rest e w h =
        let named : All IsNamed (r ∷ rest) = subst (All IsNamed) e h.named in
        elim (Option-cases r.id) [
          | inl n ↦ absurd (named.0 n)
          | inr (pid, i) ↦
              let (it₁, q, src) =
                lookup_ends limits book cache 0 pid r (answers pid) rest it (whole pid) in
              let s : Background limits book cache it it₁ =
                finishes it it₁ 0 (answers pid) pid [] rest r e i q in
              works fuel below it it₁ s refl
                (omega (arith, Background-weight limits book cache it it₁ s, w)) src h
        ]

    gives_back :
        (fuel n : ℕ)
        → Below fuel
        → (it : FallbackIter B C A) → it.sent ≡ suc n
        → weight it < suc fuel
        → IsLive others it
        → Drains answers it
    gives_back fuel n below it e w h = elim (Option-cases (release_find_peer_slot it.cab)) [
      | inl stuck ↦
          absurd
            (release_never_blocks limits book cache others it h.is_held (omega (arith, e)) stuck)
      | inr (cab', q) ↦
          works fuel below it (record it { sent = n; released = suc it.released; cab = cab' })
            (releases it n cab' e q) tt (omega (arith, e, w)) refl h
    ]

    drains : (fuel : ℕ) → Below fuel
    drains zero it w h = absurd (omega arith)
    drains (suc fuel) it w h = elim (List-cases it.source) [
      | inr (v, rest, e) ↦ reads fuel (drains fuel) it v rest e w h
      | inl read ↦ elim (List-cases it.running) [
        | inr (r, rest, e) ↦ runs fuel (drains fuel) it r rest e w h
        | inl idle ↦ elim (ℕ-cases it.sent) [
          | inr (n, e) ↦ gives_back fuel n (drains fuel) it e w h
          | inl sent ↦ elim (ℕ-cases it.released) [
            | inr (n, e) ↦
                works fuel (drains fuel) it (record it { released = n }) (ends_lookup it n e) tt
                  (omega (arith, e, w)) refl h
            | inl freed ↦ (
              it,
              stays,
              record {
                source_empty = read;
                no_lookup = omega (arith, ap length idle, sent, freed);
              },
            )
          ]
        ]
      ]
    ]

    -- From every state that an iterator can reach, whatever the router that it wraps answers
    -- without nil records, some rounds of Next and steps of lookups, without a panic and
    -- without a cancellation, use up the source and end every lookup, if the values that are
    -- left in the source have records, and their peer records IDs: then Next returns false.
    pub Reachable-drains :
        (it : FallbackIter B C A)
        → Reachable limits book cache others it
        → All IsReadable it.source
        → (it' : FallbackIter B C A) × Moves answers it it'
          × IsDrained it'
          × Round limits book cache it' (ends, it')
    Reachable-drains it reached readable =
        let (it', moves, drained) = drains (suc (weight it)) it (omega arith) (record {
          is_held = Reachable-IsHeld limits book cache others it reached;
          named = Reachable-IsNamed limits book cache others it reached;
          readable = readable;
        }) in
        (it', moves, drained, no_lookups it' drained.source_empty drained.no_lookup)
