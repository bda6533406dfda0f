-- ===== src/BasePath/Local.antt =====
-- Where a redirect leads.
use howdah.Base.{
  ℕ, [], ◌∷◌, ◌++◌, ◌≡◌, ◌≢◌, ◌↔◌, inl, inr, refl, true, false, arith, ◌==◌, nat_eq, Bool-cases, ap,
}
use howdah.Base.Bytes.{Bytes, bytes, has_prefix, has_byte}
use howdah.BasePath.{
  slash, trim_left, trim_right, kept, rooted, new_base_path, path, safe_redirect_path,
  resolve_redirect,
}

-- A local path: it begins with a slash, and a second one or a backslash does not follow, which a
-- browser would read as the start of another host's name. The tabs and newlines that a browser drops
-- from a Location count as any other byte here.
abbrev pub IsLocal : Bytes → Type 0
IsLocal [] = ⊥
IsLocal (c ∷ []) = c ≡ slash
IsLocal (c ∷ d ∷ s) = (c ≡ slash) × (d ≢ slash) × (d ≢ b'\\')

-- The empty path, or a slash and a text that neither begins nor ends with one.
abbrev pub NoEndSlash : Bytes → Type 0
NoEndSlash [] = Unit
NoEndSlash (c ∷ []) = c ≢ slash
NoEndSlash (c ∷ d ∷ s) = NoEndSlash (d ∷ s)

abbrev pub IsTrimmed : Bytes → Type 0
IsTrimmed [] = Unit
IsTrimmed (c ∷ s) = (c ≢ slash) × NoEndSlash (c ∷ s)

safe_redirect_path_iff : (target : Bytes) → (safe_redirect_path target ≡ true) ↔ IsLocal target
unfolding safe_redirect_path has_prefix
safe_redirect_path_iff [] = ground arith
safe_redirect_path_iff (c ∷ []) = ground arith
safe_redirect_path_iff (c ∷ d ∷ s) = ground arith

kept-NoEndSlash : (c : ℕ) (s : Bytes) → NoEndSlash s → NoEndSlash (kept c s)
kept-NoEndSlash c [] h = ground (arith, Bool-cases (c == slash))
kept-NoEndSlash c (d ∷ s) h = h

trim_right-NoEndSlash : (s : Bytes) → NoEndSlash (trim_right s)
unfolding trim_right
trim_right-NoEndSlash [] = tt
trim_right-NoEndSlash (c ∷ s) = kept-NoEndSlash c (trim_right s) (trim_right-NoEndSlash s)

kept-IsTrimmed : (c : ℕ) (s : Bytes) → c ≢ slash → NoEndSlash s → IsTrimmed (kept c s)
kept-IsTrimmed c [] n h = ground (arith, Bool-cases (c == slash))
kept-IsTrimmed c (d ∷ s) n h = (n, h)

-- Trimming gives a text that neither begins nor ends with a slash.
trim-IsTrimmed : (s : Bytes) → IsTrimmed (trim_right (trim_left s))
unfolding trim_left trim_right
trim-IsTrimmed [] = tt
trim-IsTrimmed (c ∷ s) = elim (Bool-cases (c == slash)) [
  | inl same ↦ rw same (trim-IsTrimmed s)
  | inr other ↦ rw other (kept-IsTrimmed c (trim_right s) (ground arith) (trim_right-NoEndSlash s))
]

trim_right-NoEndSlash_id : (s : Bytes) → NoEndSlash s → trim_right s ≡ s
unfolding trim_right
trim_right-NoEndSlash_id [] h = refl
trim_right-NoEndSlash_id (c ∷ []) h = ground arith
trim_right-NoEndSlash_id (c ∷ d ∷ s) h = ap (kept c) (trim_right-NoEndSlash_id (d ∷ s) h)

rooted-IsTrimmed_id : (s : Bytes) → IsTrimmed s → new_base_path (rooted s) ≡ rooted s
unfolding new_base_path trim_left
rooted-IsTrimmed_id [] h = unfold trim_right in refl
rooted-IsTrimmed_id (c ∷ s) (n, h) = ground (arith, trim_right-NoEndSlash_id (c ∷ s) h)

-- A base path is empty, or a slash followed by a text that neither begins nor ends with one; and
-- normalising a base path again does not change it.
pub new_base_path-IsTrimmed :
    (prefix : Bytes)
    → ((s : Bytes) × (new_base_path prefix ≡ rooted s) × IsTrimmed s)
      × (new_base_path (new_base_path prefix) ≡ new_base_path prefix)
new_base_path-IsTrimmed prefix =
    let trimmed = trim-IsTrimmed prefix in
    let shape : new_base_path prefix ≡ rooted (trim_right (trim_left prefix)) =
      unfold new_base_path in refl in
    (
      (trim_right (trim_left prefix), shape, trimmed),
      rw shape (rooted-IsTrimmed_id (trim_right (trim_left prefix)) trimmed),
    )

path-IsLocal :
    (s rel : Bytes)
    → IsTrimmed s
    → has_byte (rooted s) b'\\' ≡ false
    → IsLocal rel
    → IsLocal (path (rooted s) rel)
unfolding has_byte
path-IsLocal [] rel h b l = l
path-IsLocal (c ∷ s) rel (n, h) b l = ground arith

-- Whatever target a client asks for, the redirect is a local path (one slash, and neither a slash nor
-- a backslash after it) where the base path has no backslash; a target that is a local path is
-- resolved against the base path, any other is replaced by the application's root.
pub resolve_redirect-IsLocal :
    (prefix target : Bytes)
    → has_byte (new_base_path prefix) b'\\' ≡ false
    → IsLocal (resolve_redirect (new_base_path prefix) target)
      × (IsLocal target
          → resolve_redirect (new_base_path prefix) target ≡ new_base_path prefix ++ target)
      × (¬ IsLocal target
          → resolve_redirect (new_base_path prefix) target ≡ new_base_path prefix ++ bytes "/")
unfolding resolve_redirect
resolve_redirect-IsLocal prefix target b =
    let ((s, shape, trimmed), _) = new_base_path-IsTrimmed prefix in
    let iff = safe_redirect_path_iff target in
    elim (Bool-cases (safe_redirect_path target)) [
      | inl safe ↦ (
        rw (safe, shape) (path-IsLocal s target trimmed (rw (← shape) b) (iff.0 safe)),
        λ l. rw safe refl,
        λ n. absurd (n (iff.0 safe)),
      )
      | inr unsafe ↦ (
        rw (unsafe, shape) (path-IsLocal s (bytes "/") trimmed (rw (← shape) b) refl),
        λ l. cc (iff.1 l, unsafe),
        λ n. rw unsafe refl,
      )
    ]
