-- ===== src/Ad7172/Filter/Closest.antt =====
-- The filter that `PostFilter::closest` of `src/ad7172/mod.rs` chooses.
use thermostat.Prelude.{
  ◌≡◌, refl, ap, sym, ◌∙◌, true, false, none, some, List, [], ◌∷◌, arith, All, Bool-cases, inl, inr,
}
use mathlib.Core.Option.{some-injective}
use thermostat.Platform.{Platform}
use thermostat.Ad7172.Filter.{
  PostFilter, f27sps, f25sps, f20sps, f16sps, invalid, of_u8, to_u8, valid_values, output_rate,
  better, closest_from, best_of, closest,
}

-- The code of a filter is read back as the filter, `invalid` included.
pub of_u8-to_u8 : (f : PostFilter) → of_u8 (to_u8 f) ≡ f
unfolding of_u8 to_u8
of_u8-to_u8 f27sps = refl
of_u8-to_u8 f25sps = refl
of_u8-to_u8 f20sps = refl
of_u8-to_u8 f16sps = refl
of_u8-to_u8 invalid = refl

module _ ⦃p : Platform⦄ where
  open p use {F32, lit32, sub32, abs32, lt32}

  -- How far a rate is from that of a filter which has one.
  abbrev pub distance : F32 → F32 → F32
  distance rate r = abs32 (sub32 rate r)

  -- The filter's rate, if it has one, is no nearer than the error `e`.
  abbrev pub NotNearer : F32 → F32 → PostFilter → Type 0
  NotNearer rate e v = (r : F32) → output_rate v ≡ some r → lt32 (distance rate r) e ≡ false

  -- The filter has a rate, and none of the four filters is nearer.
  abbrev pub IsNearest : F32 → PostFilter → Type 0
  IsNearest rate f =
      (r : F32) × (output_rate f ≡ some r) × All (NotNearer rate (distance rate r)) valid_values

  abbrev HasRate : PostFilter → Type 0
  HasRate v = (r : F32) × (output_rate v ≡ some r)

  valid_values-HasRate : All HasRate valid_values
  unfolding output_rate
  valid_values-HasRate = ((_, refl), ((_, refl), ((_, refl), ((_, refl), tt))))

  -- What is no nearer than `e` is no nearer than `e'`.
  abbrev Improves : F32 → F32 → Type 0
  Improves e e' = (x : F32) → lt32 x e ≡ false → lt32 x e' ≡ false

  abbrev LoopEnds : F32 → F32 → PostFilter → List PostFilter → Type 0
  LoopEnds rate e f vs =
      (f' : PostFilter) × (r : F32) × (closest_from rate (some (e, f)) vs
        ≡ some (some (distance rate r, f')))
      × (output_rate f' ≡ some r)
      × Improves e (distance rate r)
      × All (NotNearer rate (distance rate r)) vs

  module _ (lt32_irrefl : (x : F32) → lt32 x x ≡ false)
      (lt32_trans : (x y z : F32) → lt32 x y ≡ true → lt32 y z ≡ true → lt32 x z ≡ true) where
    first_turn :
        (rate r : F32)
        → output_rate f27sps ≡ some r
        → closest_from rate none valid_values
          ≡ closest_from rate (some (distance rate r, f27sps)) (f25sps ∷ f20sps ∷ f16sps ∷ [])
    unfolding closest_from better
    first_turn rate r q = rw (q, closest_from) refl

    Improves-of_lt : (d e : F32) → lt32 d e ≡ true → Improves e d
    Improves-of_lt d e h x k = ground (arith, lt32_trans x d e)

    not_nearer :
        (rate e rv : F32) (v : PostFilter)
        → output_rate v ≡ some rv
        → lt32 (distance rate rv) e ≡ false
        → NotNearer rate e v
    not_nearer rate e rv v has h r q = rw (some-injective _ _ (sym q ∙ has)) h

    loop_ends :
        (rate r : F32) (f : PostFilter) (vs : List PostFilter)
        → output_rate f ≡ some r
        → All HasRate vs
        → LoopEnds rate (distance rate r) f vs
    unfolding closest_from better
    loop_ends rate r f [] has all = (f, r, refl, has, (λ x h. h), tt)
    loop_ends rate r f (v ∷ vs) has ((rv, q), rest) =
        let d = distance rate rv in
        let e = distance rate r in
        elim (Bool-cases (lt32 d e)) [
          | inl nearer ↦
              let (f', r', run, has', imp, all) = loop_ends rate rv v vs q rest in
              (
                f',
                r',
                rw (q, closest_from) (rw nearer run),
                has',
                (λ x h. imp x (Improves-of_lt d e nearer x h)),
                (not_nearer rate (distance rate r') rv v q (imp d (lt32_irrefl d)), all),
              )
          | inr farther ↦
              let (f', r', run, has', imp, all) = loop_ends rate r f vs has rest in
              (
                f',
                r',
                rw (q, closest_from) (rw farther run),
                has',
                imp,
                (not_nearer rate (distance rate r') rv v q (imp d farther), all),
              )
        ]

    -- With an order of `f32` that is irreflexive and transitive where it holds, `closest` never
    -- panics and never fails: for every rate it chooses a filter that has a rate, and none of the
    -- four filters is nearer.
    pub closest-IsNearest :
        (rate : F32) → (f : PostFilter) × (closest rate ≡ some (some f)) × IsNearest rate f
    unfolding closest
    closest-IsNearest rate =
        let first = valid_values-HasRate.0 in
        let (f, r, run, has, imp, all) =
          loop_ends rate first.0 f27sps (f25sps ∷ f20sps ∷ f16sps ∷ []) first.1
            valid_values-HasRate.1 in
        let d = distance rate first.0 in
        (
          f,
          ap best_of (first_turn rate first.0 first.1 ∙ run),
          (
            r,
            has,
            (not_nearer rate (distance rate r) first.0 f27sps first.1 (imp d (lt32_irrefl d)), all),
          ),
        )
