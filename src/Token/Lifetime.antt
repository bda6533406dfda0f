-- ===== src/Token/Lifetime.antt =====
-- How long an access token is taken to last.
use howdah.Base.{
  ℕ, ◌*◌, ◌^◌, ◌+◌, ◌-◌, ◌≡◌, ◌≢◌, ◌≤◌, ◌<◌, min, refl, ap, ◌∙◌, arith, [], ◌==◌, ==_iff, false,
  ◌||◌, nat_eq,
}
use howdah.Base.Bytes.{Bytes, bytes, bytes_eq}
use howdah.Base.Int.{ℤ, pos, negsuc, int_eq}
use howdah.Clock.{Time, second}
use howdah.Errors.{ok}
use howdah.Token.{Formats, expiration_time, expiry_in, clamp_int32}
use howdah.Base.Words.{to_int32, to_int64, times}
use howdah.Token.Numbers.{parse_int, parsed}

to_int32-pos : (n : ℕ) → n < 2 ^ 31 → to_int32 (pos n) ≡ pos n
unfolding to_int32
to_int32-pos n h = ground arith

expiry_in-pos : (now n : ℕ) → 0 < n → n < 2 ^ 31 → expiry_in now (pos n) ≡ now + n * second
unfolding expiry_in to_int64 times
expiry_in-pos now n some_time short = ground arith

to_int32-negsuc : (m : ℕ) → m < 2 ^ 31 → to_int32 (negsuc m) ≡ negsuc m
unfolding to_int32
to_int32-negsuc m h = ground arith

to_int32_wraps : (m : ℕ) → 2 ^ 31 ≤ m → m < 2 ^ 32 → to_int32 (negsuc m) ≡ pos (2 ^ 32 - 1 - m)
unfolding to_int32
to_int32_wraps m h k = ground arith

module _ (f : Formats) (b text : Bytes) (i : ℤ) (given : b ≢ []) (not_null : b ≢ bytes "null")
    (numeric : f.number b ≡ ok text) (parses : parse_int text ≡ parsed i) where
  expiration_time-clamped : expiration_time f b ≡ ok (to_int32 (clamp_int32 f i))
  unfolding expiration_time
  expiration_time-clamped =
      let some_number : (b == [] || b == bytes "null") ≡ false =
        ground (arith, ==_iff b [], ==_iff b (bytes "null"), given, not_null) in
      rw (some_number, numeric, parses) refl

  -- A JSON `expires_in` that is an integer of 64 bits. A positive one gives the access token exactly
  -- that many seconds from now, and 2^31 - 1 of them at most, which no arithmetic on the way overflows. A
  -- negative one down to -2^31 is taken as it is; one that is lower is not brought into the range but
  -- wraps, and above -2^32 gives the token a lifetime ahead.
  pub expiration_time-seconds :
      (now : Time)
      → ((n : ℕ)
          → i ≡ pos n
          → 0 < n
          → (expiration_time f b ≡ ok (pos (min n (2 ^ 31 - 1))))
            × (expiry_in now (pos (min n (2 ^ 31 - 1))) ≡ now + min n (2 ^ 31 - 1) * second))
        × ((m : ℕ) → i ≡ negsuc m → m < 2 ^ 31 → expiration_time f b ≡ ok (negsuc m))
        × ((m : ℕ)
            → i ≡ negsuc m
            → 2 ^ 31 ≤ m
            → m + 1 < 2 ^ 32
            → (expiration_time f b ≡ ok (pos (2 ^ 32 - 1 - m)))
              × (now ≤ expiry_in now (pos (2 ^ 32 - 1 - m))))
  expiration_time-seconds now = (
    λ n e some_time.
        let most : clamp_int32 f i ≡ pos (min n (2 ^ 31 - 1)) = ground (arith, e) in
        (
          expiration_time-clamped
              ∙ ap (λ k. ok (to_int32 k)) most
              ∙ ap ok (to_int32-pos (min n (2 ^ 31 - 1)) (omega arith)),
          expiry_in-pos now (min n (2 ^ 31 - 1)) (omega arith) (omega arith),
        ),
    λ m e small.
        let same : clamp_int32 f i ≡ negsuc m = ground (arith, e) in
        expiration_time-clamped ∙ ap (λ k. ok (to_int32 k)) same ∙ ap ok (to_int32-negsuc m small),
    λ m e large fits.
        let same : clamp_int32 f i ≡ negsuc m = ground (arith, e) in
        let ahead = expiry_in-pos now (2 ^ 32 - 1 - m) (omega arith) (omega arith) in
        (
          expiration_time-clamped
              ∙ ap (λ k. ok (to_int32 k)) same
              ∙ ap ok (to_int32_wraps m large (omega arith)),
          omega (arith, ahead),
        ),
  )
