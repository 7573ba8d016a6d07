-- ===== src/Signature/RoundTrip/Parameters.antt =====
-- The parameters of a signature, as they are written in `Signature-Input` and read back.
use Prim.Native.Nat.{zero, suc, ◌/◌, ◌%◌}
use text.Mathlib.TextLemmas.{nil-append, cons-append, append_assoc}
use oxifed.Base.{
  ℕ, ◌+◌, ◌*◌, ◌≤◌, ◌<◌, String, Lacks, AllChars, AllChars-append, AllChars-mono, Bool, leb, eqb,
  ◌&&◌, ◌||◌, ℤ, pos, negsuc, show, show_from, push_digit, push_digit-cons, parse_i64-show, ◌≡◌,
  refl, arith, Bool-cases, inl, inr, ltb, List, [], ◌∷◌, map, All, some, join, ok,
}
use oxifed.Signature.Types.{
  DateTime, second, SignatureAlgorithm, rsa_sha256, rsa_pss_sha512, ecdsa_p256_sha256, ed25519,
  as_str, SignatureParameters, default, SignatureConfig, Crates,
}
use oxifed.Signature.Parse.{parse_time, from_input, format_parameters}
use oxifed.Signature.Sign.{signed_parameters}
use oxifed.Signature.Components.{from_str-as_str}
use oxifed.Signature.RoundTrip.{
  Laws, value_of, is_visible, is_bare, Written, bare, in_quotes, parameter_text, IsParameter,
}

-- what a number is written with
abbrev is_decimal : ℕ → Bool
is_decimal c = (leb b'0' c && leb c b'9') || eqb c b'-'

push_digit-is_decimal :
    (d : ℕ) (acc : String)
    → d < 10
    → AllChars is_decimal acc
    → AllChars is_decimal (push_digit d acc)
push_digit-is_decimal d acc h k =
    let (c, shape, value) = push_digit-cons d acc h in rw (shape) (rw value (ground arith), k)

show_from-is_decimal :
    (fuel n : ℕ) (acc : String)
    → AllChars is_decimal acc
    → AllChars is_decimal (show_from fuel n acc)
unfolding show_from
show_from-is_decimal zero n acc h = h
show_from-is_decimal (suc fuel) n acc h = elim (Bool-cases (ltb n 10)) [
  | inl small ↦ rw small (push_digit-is_decimal n acc (ground arith) h)
  | inr large ↦ rw large (
      show_from-is_decimal fuel (n / 10) (push_digit (n % 10) acc)
        (push_digit-is_decimal (n % 10) acc (omega arith) h))
]

show-is_decimal : (z : ℤ) → AllChars is_decimal (show z)
unfolding show
show-is_decimal (pos n) = show_from-is_decimal (suc n) n "" tt
show-is_decimal (negsuc n) =
    rw (cons-append, nil-append) (refl, show_from-is_decimal (suc (suc n)) (suc n) "" tt)

show-is_bare : (z : ℤ) → AllChars is_bare (show z)
unfolding is_bare
show-is_bare z = AllChars-mono is_decimal is_bare _ (λ c h. ground arith) (show-is_decimal z)

show-is_visible : (z : ℤ) → AllChars is_visible (show z)
show-is_visible z = AllChars-mono is_decimal is_visible _ (λ c h. ground arith) (show-is_decimal z)

as_str-is_visible : (a : SignatureAlgorithm) → AllChars is_visible (as_str a)
unfolding as_str
as_str-is_visible rsa_sha256 = ground arith
as_str-is_visible rsa_pss_sha512 = ground arith
as_str-is_visible ecdsa_p256_sha256 = ground arith
as_str-is_visible ed25519 = ground arith

as_str-Lacks : (a : SignatureAlgorithm) → Lacks (as_str a) b'"'
unfolding as_str
as_str-Lacks rsa_sha256 = ground arith
as_str-Lacks rsa_pss_sha512 = ground arith
as_str-Lacks ecdsa_p256_sha256 = ground arith
as_str-Lacks ed25519 = ground arith

join-is_visible :
    (ts : List String) → All (AllChars is_visible) ts → AllChars is_visible (join ";" ts)
unfolding join
join-is_visible [] h = tt
join-is_visible (t ∷ []) (x, h) = x
join-is_visible (t ∷ u ∷ ts) (x, h) =
    AllChars-append is_visible t _ x
      (AllChars-append is_visible ";" _ (refl, tt) (join-is_visible (u ∷ ts) h))

parameter_text-is_visible :
    (key : String) (value : Written)
    → AllChars is_visible key
    → AllChars is_visible (value_of value)
    → AllChars is_visible (parameter_text (key, value))
parameter_text-is_visible key (bare v) h k =
    let append = AllChars-append is_visible in append key _ h (append "=" v (refl, tt) k)
parameter_text-is_visible key (in_quotes v) h k =
    let append = AllChars-append is_visible in
    append key _ h (append "=\"" _ (refl, (refl, tt)) (append v "\"" k (refl, tt)))

module _ (crates : Crates) (laws : Laws crates) (now later : DateTime)
    (config : SignatureConfig) where
  open laws use {last, whole}

  -- What is written, in order.
  abbrev pub written : List (String × Written)
  written =
      ("created", bare (show (crates.timestamp now)))
      ∷ ("expires", bare (show (crates.timestamp (later + 3600 * second))))
      ∷ ("keyid", in_quotes config.key_id)
      ∷ ("alg", in_quotes (as_str config.algorithm))
      ∷ []

  -- What is read back: times are cut to whole seconds.
  abbrev pub read_parameters : SignatureParameters
  read_parameters = record default {
    created = some (whole now);
    expires = some (whole (later + 3600 * second));
    key_id = some config.key_id;
    algorithm = some config.algorithm;
  }

  format_parameters-written :
      format_parameters crates (signed_parameters now later config)
      ≡ join ";" (map parameter_text written)
  unfolding format_parameters signed_parameters
  format_parameters-written =
      rw
        (
          ← append_assoc "created" "=" (show (crates.timestamp now)),
          ← append_assoc "expires" "=" (show (crates.timestamp (later + 3600 * second))),
        )
        refl

  pub format_parameters-read_parameters :
      format_parameters crates read_parameters
      ≡ format_parameters crates (signed_parameters now later config)
  unfolding format_parameters signed_parameters
  format_parameters-read_parameters = rw (laws.timestamp_whole, laws.timestamp_whole) refl

  written-IsParameter : Lacks config.key_id b'"' → All IsParameter written
  written-IsParameter h = (
    (refl, ground arith, show-is_bare _),
    (
      (refl, ground arith, show-is_bare _),
      ((refl, ground arith, h), ((refl, ground arith, as_str-Lacks config.algorithm), tt)),
    ),
  )

  parse_time-timestamp :
      (what : String) (t : DateTime)
      → t ≤ last
      → parse_time crates what (show (crates.timestamp t)) ≡ ok (whole t)
  unfolding parse_time
  parse_time-timestamp what t h =
      rw (parse_i64-show _ (laws.timestamp_IsI64 t h), laws.from_timestamp_whole t h) refl

  pub from_input-format_parameters :
      Lacks config.key_id b'"'
      → now ≤ last
      → later + 3600 * second ≤ last
      → from_input crates (format_parameters crates (signed_parameters now later config))
        ≡ ok read_parameters
  unfolding from_input
  from_input-format_parameters h early fits =
      rw (format_parameters-written, laws.captures_parameters written (written-IsParameter h))
        (rw
          (
            parse_time-timestamp "created" now early,
            parse_time-timestamp "expires" (later + 3600 * second) fits,
            from_str-as_str config.algorithm,
          )
          refl)

  pub parameters-is_visible :
      AllChars is_visible config.key_id
      → AllChars is_visible (format_parameters crates (signed_parameters now later config))
  parameters-is_visible h =
      let text = parameter_text-is_visible in
      rw format_parameters-written (
        join-is_visible (map parameter_text written) (
          text "created" (bare _) (ground arith) (show-is_visible _),
          (
            text "expires" (bare _) (ground arith) (show-is_visible _),
            (
              text "keyid" (in_quotes _) (ground arith) h,
              (text "alg" (in_quotes _) (ground arith) (as_str-is_visible config.algorithm), tt),
            ),
          ),
        ))
