-- ===== src/Envelope/Sealing.antt =====
-- The layout of an envelope: the parts that the reader cuts a value into are those that the writer
-- put together.
use howdah.Base.{
  ℕ, [], ◌∷◌, ◌++◌, ◌+◌, ◌≡◌, ◌≤◌, arith, length, take, drop, length-append, take-append_length,
  drop-append_length, take-append-drop, drop-drop, ap, sym, ◌∙◌,
}
use howdah.Base.Bytes.{Bytes}
use howdah.Envelope.{byte_at, kid_of, nonce_of, cookie_envelope_header_length}

abbrev pub layout : ℕ → ℕ → Bytes → Bytes → Bytes → Bytes
layout version kind kid nonce text = version ∷ kind ∷ (kid ++ (nonce ++ text))

module _ (version kind : ℕ) (kid nonce text : Bytes) (hk : length kid ≡ 8)
    (hn : length nonce ≡ 12) where
  pub kid_of-layout : kid_of (layout version kind kid nonce text) ≡ kid
  kid_of-layout = rw (← hk) (take-append_length kid (nonce ++ text))

  after_kid : drop 8 (kid ++ (nonce ++ text)) ≡ nonce ++ text
  after_kid = rw (← hk) (drop-append_length kid (nonce ++ text))

  pub nonce_of-layout : nonce_of (layout version kind kid nonce text) ≡ nonce
  nonce_of-layout = ap (take 12) after_kid ∙ rw (← hn) (take-append_length nonce text)

  pub text_of-layout :
      drop cookie_envelope_header_length (layout version kind kid nonce text) ≡ text
  text_of-layout =
      sym (drop-drop 8 12 (kid ++ (nonce ++ text)))
      ∙ ap (drop 12) after_kid
      ∙ rw (← hn) (drop-append_length nonce text)

  pub length-layout : length (layout version kind kid nonce text) ≡ 22 + length text
  length-layout = omega (arith, length-append kid (nonce ++ text), length-append nonce text)

-- Any value of the header's length is laid out so.
pub layout_of :
    (value : Bytes)
    → 22 ≤ length value
    → value
      ≡ layout (byte_at value 0) (byte_at value 1) (kid_of value) (nonce_of value) (drop 22 value)
layout_of [] h = absurd (omega arith)
layout_of (a ∷ []) h = absurd (omega arith)
layout_of (a ∷ b ∷ rest) h =
    ap (λ t. a ∷ b ∷ t)
      (sym (take-append-drop 8 rest)
        ∙ ap (λ t. take 8 rest ++ t)
            (sym (take-append-drop 12 (drop 8 rest))
              ∙ ap (λ t. take 12 (drop 8 rest) ++ t) (drop-drop 8 12 rest)))
