-- ===== src/App/Replay/Checked.antt =====
-- What the options of `run_replay` can hold, and that the engine accepts them.
use trace_forge.Common.{
  ◌≡◌, ◌⊎◌, ◌↔◌, inl, inr, refl, sym, ◌∙◌, arith, Bool, true, false, ◌||◌, not, ◌==◌, subst,
  if◌then◌else◌, Option, none, some, List, [], ◌∷◌, length, Bytes, bytes_eq, Bool-cases,
  Option-cases,
}
use trace_forge.Common.Text.{codes}
use trace_forge.Telemetry.Double.{Double, is_finite, less, d_zero}
use trace_forge.Telemetry.Event.{Protobuf}
use trace_forge.Replay.{ReplayEngine, invalid_options, ReplayConsumer, replay}
use trace_forge.App.{Parsed}
use trace_forge.App.Generate.{is_help}
use trace_forge.App.Replay.{
  Stod, PlayOptions, default_play, parse_speed, set_from, set_until, set_speed, set_play_option,
  parse_play,
}
use trace_forge.App.Replay.Refusal.{
  AreInverted, replay-is_invalid, replay-log_error, not_after_iff, is_invalid_iff,
}

-- The speed that the engine accepts.
abbrev pub HasSpeed : PlayOptions → Type 0
HasSpeed o = (not (is_finite o.replay.speed) || less o.replay.speed d_zero) ≡ false

passed :
    {A : Type 0} (bad : A → Bool) (x y : A)
    → (if bad x then none else some x) ≡ some y
    → bad y ≡ false
passed bad x y h = elim (Bool-cases (bad x)) [
  | inl e ↦ absurd (ground (arith, h, e))
  | inr e ↦ let same : x ≡ y = ground (arith, h, e) in subst (λ z. bad z ≡ false) same e
]

longer :
    (c : Bool) (f g : Double → Bool) (parsed speed : Double)
    → (if c || f parsed || g parsed then none else some parsed) ≡ some speed
    → (f speed || g speed) ≡ false
longer true f g parsed speed h = absurd (ground (arith, h))
longer false f g parsed speed h = passed (λ d. f d || g d) parsed speed h

module _ (stod : Stod) where
  parse_speed-valid :
      (text : Bytes) (speed : Double)
      → parse_speed stod text ≡ some speed
      → (not (is_finite speed) || less speed d_zero) ≡ false
  unfolding parse_speed
  parse_speed-valid text speed h = elim (Option-cases (stod text)) [
    | inl e ↦ absurd (ground (arith, h, e))
    | inr ((parsed, consumed), e) ↦
        longer (not (consumed == length text)) (λ d. not (is_finite d)) (λ d. less d d_zero) parsed
          speed (rw (e, parse_speed) at h)
  ]

  set_from-speed :
      (o o' : PlayOptions) (value : Bytes)
      → set_from stod o value ≡ some o'
      → o'.replay.speed ≡ o.replay.speed
  unfolding set_from
  set_from-speed o o' value h = ground (arith, h)

  set_until-speed :
      (o o' : PlayOptions) (value : Bytes)
      → set_until stod o value ≡ some o'
      → o'.replay.speed ≡ o.replay.speed
  unfolding set_until
  set_until-speed o o' value h = ground (arith, h)

  set_speed-parse_speed :
      (o o' : PlayOptions) (value : Bytes)
      → set_speed stod o value ≡ some o'
      → parse_speed stod value ≡ some o'.replay.speed
  unfolding set_speed
  set_speed-parse_speed o o' value h = ground (arith, h)

  set_play_option-speed :
      (o o' : PlayOptions) (option value : Bytes)
      → set_play_option stod o option value ≡ some o'
      → (o'.replay.speed ≡ o.replay.speed) ⊎ (parse_speed stod value ≡ some o'.replay.speed)
  unfolding set_play_option
  set_play_option-speed o o' option value h = ground (
    arith,
    h,
    set_from-speed o o' value,
    set_until-speed o o' value,
    set_speed-parse_speed o o' value,
  )

  set_play_option-HasSpeed :
      (o o' : PlayOptions) (option value : Bytes)
      → HasSpeed o
      → set_play_option stod o option value ≡ some o'
      → HasSpeed o'
  set_play_option-HasSpeed o o' option value k h =
      elim (set_play_option-speed o o' option value h) [
        | inl same ↦ subst (λ d. (not (is_finite d) || less d d_zero) ≡ false) (sym same) k
        | inr set ↦ parse_speed-valid value o'.replay.speed set
      ]

  parse_play-HasSpeed :
      (o o' : PlayOptions) (arguments : List Bytes)
      → HasSpeed o
      → parse_play stod o arguments ≡ Parsed.parsed o'
      → HasSpeed o'
  unfolding parse_play
  parse_play-HasSpeed o o' [] k h =
      let same : o'.replay.speed ≡ o.replay.speed = ground (arith, h) in
      subst (λ d. (not (is_finite d) || less d d_zero) ≡ false) (sym same) k
  parse_play-HasSpeed o o' (option ∷ []) k h =
      let same : o'.replay.speed ≡ o.replay.speed = ground (arith, h) in
      subst (λ d. (not (is_finite d) || less d d_zero) ≡ false) (sym same) k
  parse_play-HasSpeed o o' (option ∷ value ∷ rest) k h = elim (Bool-cases (is_help option)) [
    | inl e ↦ absurd (ground (arith, h, e))
    | inr e ↦ elim (Bool-cases (bytes_eq option (codes "--print-events"))) [
      | inl e' ↦
          parse_play-HasSpeed (record o { print_events = true }) o' (value ∷ rest) k
            (ground (arith, h, e, e'))
      | inr e' ↦ elim (Option-cases (set_play_option stod o option value)) [
        | inl none_set ↦ absurd (ground (arith, h, e, e', none_set))
        | inr (o₂, set) ↦
            parse_play-HasSpeed o₂ o' rest (set_play_option-HasSpeed o o₂ option value k set)
              (ground (arith, h, e, e', set))
      ]
    ]
  ]

  -- Whatever arguments are read as options of `replay`, on any engine, file and consumer, the
  -- replay ends with the status invalid_options if and only if the engine could index the log and
  -- both limits are given with the upper one at or before the lower one: the speed is never
  -- refused, and no round of the loop ends so.
  pub parse_play-replay :
      {C : Type 0} (o : PlayOptions) (arguments : List Bytes) (p : Protobuf)
      (consumer : ReplayConsumer C) (engine : ReplayEngine) (stream : Option Bytes) (c : C)
      → parse_play stod default_play arguments ≡ Parsed.parsed o
      → ((replay p consumer engine stream o.replay c).result.status ≡ invalid_options)
        ↔ ((engine.error ≡ none) × AreInverted o.replay)
  parse_play-replay o arguments p consumer engine stream c h =
      let speed = parse_play-HasSpeed default_play o arguments refl h in
      let status = (replay p consumer engine stream o.replay c).result.status in
      let invalid = is_invalid_iff status in
      let inverted = not_after_iff o.replay _ _ refl refl in
      elim (Option-cases engine.error) [
        | inl usable ↦
            let same = replay-is_invalid p consumer engine stream o.replay c speed usable in
            (
              λ e. (usable, inverted.0 (sym same ∙ invalid.1 e)),
              λ e. invalid.0 (same ∙ inverted.1 e.1),
            )
        | inr (error, e) ↦
            let valid = replay-log_error p consumer engine stream o.replay c error e in
            (
              λ refused. absurd (ground (arith, invalid.1 refused, valid)),
              λ both. absurd (ground (arith, e, both.0)),
            )
      ]
