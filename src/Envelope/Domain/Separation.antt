-- ===== src/Envelope/Domain/Separation.antt =====
-- The domains of different purposes and names.
use howdah.Base.{ℕ, [], ◌∷◌, ◌++◌, ◌≡◌, ◌≢◌, ◌<◌, ◌↔◌, refl, true, false, arith, All, ap, sym, ◌∙◌}
use howdah.Base.Bytes.{Bytes, bytes, has_byte}
use howdah.Errors.{ok}
use howdah.Envelope.Domain.{
  Purpose, session, auth_redirect, store, purpose_text, cookie_name_separators, is_token,
  valid_cookie_name, cookie_domain,
}

-- A character of an HTTP token: visible ASCII and no separator.
abbrev pub IsTokenChar : ℕ → Type 0
IsTokenChar c = (0x20 < c) × (c < 0x7f) × All (λ s. s ≢ c) cookie_name_separators

is_token_iff : (name : Bytes) → (is_token name ≡ true) ↔ All IsTokenChar name
unfolding is_token has_byte
is_token_iff [] = (λ _. tt, λ _. refl)
is_token_iff (c ∷ name) = ground (arith, is_token_iff name)

-- A cookie name is valid exactly when it is a non-empty HTTP token.
pub valid_cookie_name_iff :
    (name : Bytes) → (valid_cookie_name name ≡ true) ↔ ((name ≢ []) × All IsTokenChar name)
unfolding valid_cookie_name
valid_cookie_name_iff [] = ground arith
valid_cookie_name_iff (c ∷ name) = ground (arith, is_token_iff (c ∷ name))

is_token-no_colon : (name : Bytes) → is_token name ≡ true → has_byte name b':' ≡ false
unfolding is_token has_byte
is_token-no_colon [] h = refl
is_token-no_colon (c ∷ name) h = ground (arith, is_token-no_colon name)

pub cookie_domain-ok :
    (p : Purpose) (name d : Bytes)
    → cookie_domain p name ≡ ok d
    → (has_byte name b':' ≡ false) × (d ≡ purpose_text p ++ name)
unfolding cookie_domain valid_cookie_name
cookie_domain-ok p [] d h = cc
cookie_domain-ok p (c ∷ name) d h = ground (arith, is_token-no_colon (c ∷ name))

no_prefix : (m n : Bytes) → has_byte m b':' ≡ false → m ≢ bytes "auth_redir:" ++ n
unfolding has_byte
no_prefix m n h e = cc (ap (λ s. has_byte s b':') e)

same_text :
    (p q : Purpose) (m n : Bytes)
    → has_byte m b':' ≡ false
    → has_byte n b':' ≡ false
    → purpose_text p ++ m ≡ purpose_text q ++ n
    → (p ≡ q) × (m ≡ n)
unfolding has_byte
same_text session session m n hm hn e = ground arith
same_text session auth_redirect m n hm hn e = absurd (no_prefix m n hm (ground arith))
same_text session store m n hm hn e = ground arith
same_text auth_redirect session m n hm hn e = absurd (no_prefix n m hn (ground arith))
same_text auth_redirect auth_redirect m n hm hn e = ground arith
same_text auth_redirect store m n hm hn e = ground arith
same_text store session m n hm hn e = ground arith
same_text store auth_redirect m n hm hn e = ground arith
same_text store store m n hm hn e = ground arith

-- Two purposes and cookie names give one domain only when both are the same: a value sealed for one
-- cookie of one application is labelled for no other.
pub cookie_domain_injective :
    (p q : Purpose) (m n d : Bytes)
    → cookie_domain p m ≡ ok d
    → cookie_domain q n ≡ ok d
    → (p ≡ q) × (m ≡ n)
cookie_domain_injective p q m n d hm hn =
    let (no_m, em) = cookie_domain-ok p m d hm in
    let (no_n, en) = cookie_domain-ok q n d hn in same_text p q m n no_m no_n (sym em ∙ en)
