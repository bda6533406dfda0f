-- ===== src/BasePath/Cleaning.antt =====
-- What http.Redirect makes of a local path.
use howdah.Base.{
  ℕ, List, [], ◌∷◌, ◌++◌, ◌≡◌, ◌≢◌, ◌⊎◌, inl, inr, refl, Bool, true, false, ◌||◌, arith, All, ◌==◌,
  ==_iff, nat_eq, Bool-cases, ltb,
}
use howdah.Base.Bytes.{Bytes, bytes, bytes_eq, has_byte}
use howdah.BasePath.{slash}
use howdah.BasePath.Local.{IsLocal}
use howdah.BasePath.Location.{
  prepend, split_slashes, outer, enter, resolve_dots, join_slashes, or_root, clean, ends_with_slash,
  cut_query, with_slash, cleaned, escape_non_ascii, location,
}

-- A byte of a segment that no browser takes for a slash.
abbrev IsPlain : ℕ → Type 0
IsPlain b = (b ≢ slash) × (b ≢ b'\\')

abbrev IsSegment : Bytes → Type 0
IsSegment s = All IsPlain s

abbrev IsKept : Bytes → Type 0
IsKept s = (s ≢ []) × IsSegment s

prepend-IsSegment :
    (c : ℕ) (segments : List Bytes)
    → IsPlain c
    → All IsSegment segments
    → All IsSegment (prepend c segments)
prepend-IsSegment c [] p h = ((p, tt), tt)
prepend-IsSegment c (s ∷ segments) p (q, h) = ((p, q), h)

split_slashes-IsSegment : (s : Bytes) → has_byte s b'\\' ≡ false → All IsSegment (split_slashes s)
unfolding split_slashes has_byte
split_slashes-IsSegment [] h = (tt, tt)
split_slashes-IsSegment (c ∷ s) h =
    let rest = split_slashes-IsSegment s (ground (arith, h)) in
    elim (Bool-cases (c == slash)) [
      | inl same ↦ rw same (tt, rest)
      | inr other ↦ rw other (prepend-IsSegment c (split_slashes s) (ground (arith, h, other)) rest)
    ]

outer-IsKept : (kept : List Bytes) → All IsKept kept → All IsKept (outer kept)
outer-IsKept [] h = tt
outer-IsKept (s ∷ kept) (p, h) = h

enter-IsKept :
    (kept : List Bytes) (segment : Bytes)
    → All IsKept kept
    → IsSegment segment
    → All IsKept (enter kept segment)
enter-IsKept kept segment h q = elim (Bool-cases (segment == [] || segment == bytes ".")) [
  | inl skipped ↦ rw skipped h
  | inr named ↦ elim (Bool-cases (segment == bytes "..")) [
    | inl up ↦ rw (named, up) (outer-IsKept kept h)
    | inr down ↦ rw (named, down) (((λ e. ground (arith, named, (==_iff segment []).1 e)), q), h)
  ]
]

resolve_dots-IsKept :
    (kept segments : List Bytes)
    → All IsKept kept
    → All IsSegment segments
    → All IsKept (resolve_dots kept segments)
unfolding resolve_dots
resolve_dots-IsKept kept [] h k = h
resolve_dots-IsKept kept (s ∷ segments) h (q, k) =
    resolve_dots-IsKept (enter kept s) segments (enter-IsKept kept s h q) k

-- A local path with something behind its slash.
abbrev IsRooted : Bytes → Type 0
IsRooted [] = ⊥
IsRooted (c ∷ []) = ⊥
IsRooted (c ∷ d ∷ s) = (c ≡ slash) × IsPlain d

IsRooted-append : (x y : Bytes) → IsRooted x → IsRooted (x ++ y)
IsRooted-append [] y h = absurd h
IsRooted-append (c ∷ []) y h = absurd h
IsRooted-append (c ∷ d ∷ s) y h = h

slash-IsRooted : (s : Bytes) → IsKept s → IsRooted (slash ∷ s)
slash-IsRooted [] (n, h) = absurd (n refl)
slash-IsRooted (c ∷ s) (n, (p, h)) = (refl, p)

join_slashes-IsRooted :
    (kept : List Bytes) → All IsKept kept → (join_slashes kept ≡ []) ⊎ IsRooted (join_slashes kept)
unfolding join_slashes
join_slashes-IsRooted [] h = inl refl
join_slashes-IsRooted (s ∷ kept) (p, h) = elim (join_slashes-IsRooted kept h) [
  | inl nothing ↦ inr (rw nothing (slash-IsRooted s p))
  | inr rooted ↦ inr (IsRooted-append (join_slashes kept) (slash ∷ s) rooted)
]

-- A text that a browser takes for no other host: a slash alone, or a rooted one.
abbrev IsHere : Bytes → Type 0
IsHere x = (x ≡ slash ∷ []) ⊎ IsRooted x

or_root-IsHere : (x : Bytes) → (x ≡ []) ⊎ IsRooted x → IsHere (or_root x)
or_root-IsHere [] h = inl refl
or_root-IsHere (c ∷ s) (inl e) = cc
or_root-IsHere (c ∷ s) (inr r) = inr r

clean-IsHere : (p : Bytes) → has_byte p b'\\' ≡ false → IsHere (clean p)
unfolding clean
clean-IsHere p h = or_root-IsHere _ (
    join_slashes-IsRooted _
      (resolve_dots-IsKept [] (split_slashes p) tt (split_slashes-IsSegment p h)))

with_slash-IsHere : (trailing : Bool) (p : Bytes) → IsHere p → IsHere (with_slash trailing p)
unfolding ends_with_slash
with_slash-IsHere false p h = h
with_slash-IsHere true p (inl e) = inl (rw e refl)
with_slash-IsHere true p (inr r) = elim (Bool-cases (ends_with_slash p)) [
  | inl ends ↦ rw ends (inr r)
  | inr not_yet ↦ rw not_yet (inr (IsRooted-append p (slash ∷ []) r))
]

-- Nothing, or a text that begins with a question mark.
abbrev IsQuery : Bytes → Type 0
IsQuery [] = Unit
IsQuery (c ∷ s) = c ≡ b'?'

cut_query-IsQuery :
    (url : Bytes)
    → IsQuery (cut_query url).1
      × (has_byte url b'\\' ≡ false → has_byte (cut_query url).0 b'\\' ≡ false)
unfolding cut_query has_byte
cut_query-IsQuery [] = (tt, λ h. refl)
cut_query-IsQuery (c ∷ s) =
    let (q, h) = cut_query-IsQuery s in
    elim (Bool-cases (c == b'?')) [
      | inl asks ↦ rw asks ((==_iff c b'?').0 asks, λ k. refl)
      | inr other ↦ rw other (q, λ k. ground (arith, k, h))
    ]

IsHere-query : (x query : Bytes) → IsHere x → IsQuery query → IsLocal (x ++ query)
IsHere-query x [] (inl e) q = rw e refl
IsHere-query x (c ∷ query) (inl e) q =
    rw (e, q) (refl, (λ h. omega (arith, h)), λ h. omega (arith, h))
IsHere-query [] query (inr r) q = absurd r
IsHere-query (c ∷ []) query (inr r) q = absurd r
IsHere-query (c ∷ d ∷ s) query (inr (e, p)) q = (e, p.0, p.1)

escape-IsLocal : (x : Bytes) → IsLocal x → IsLocal (escape_non_ascii x)
unfolding escape_non_ascii
escape-IsLocal [] h = h
escape-IsLocal (c ∷ []) h = rw h refl
escape-IsLocal (c ∷ d ∷ s) (e, n, m) = elim (Bool-cases (ltb d 128)) [
  | inl plain ↦ rw (e, plain) (refl, n, m)
  | inr high ↦ rw (e, high) (refl, (λ h. omega (arith, h)), λ h. omega (arith, h))
]

-- http.Redirect keeps a local path one, where it has no backslash.
pub location-IsLocal :
    (parses : Bytes → Bool) (url : Bytes)
    → IsLocal url
    → (has_byte url b'\\' ≡ true) ⊎ IsLocal (location parses url)
unfolding location cleaned
location-IsLocal parses url local = elim (Bool-cases (has_byte url b'\\')) [
  | inl there ↦ inl there
  | inr none_there ↦ elim (Bool-cases (parses url)) [
    | inr kept ↦ inr (rw kept (escape-IsLocal url local))
    | inl parsed ↦
        let (query, front) = cut_query-IsQuery url in
        inr (
          rw parsed (
            escape-IsLocal (cleaned (cut_query url)) (
              IsHere-query _ _
                (with_slash-IsHere (ends_with_slash (cut_query url).0) (clean (cut_query url).0)
                  (clean-IsHere (cut_query url).0 (front none_there)))
                query)))
  ]
]
