-- ===== src/Messages/Clean.antt =====
-- cleanText of persistence/message-row.ts, and the page sizes of core/persistence/message-store.utils.ts.
use Prim.Native.Nat.{ℕ, ◌≤◌}
use Prim.Native.Char.{code}
use messaging_gateway.Prelude.{
  String, Bool, false, ◌||◌, ◌==◌, ◌≡◌, refl, sym, ap, ◌∙◌, ◌↔◌, arith, Bool-cases, inl, inr,
}
use messaging_gateway.Messages.Format.{
  clean_text, PageLimit, not_finite, whole, below_zero, clamp_page_limit,
}

abbrev pub has_null : String → Bool
has_null String.[] = false
has_null (String.◌∷◌ c s) = code c == 0 || has_null s

clean_text-has_null : (s : String) → has_null (clean_text s) ≡ false
unfolding clean_text
clean_text-has_null String.[] = refl
clean_text-has_null (String.◌∷◌ c s) = elim (Bool-cases (code c == 0)) [
  | inl zero_ ↦ rw zero_ (clean_text-has_null s)
  | inr other ↦ rw other (rw other (clean_text-has_null s))
]

clean_text-fixed : (s : String) → has_null s ≡ false → clean_text s ≡ s
unfolding clean_text
clean_text-fixed String.[] h = refl
clean_text-fixed (String.◌∷◌ c s) h = elim (Bool-cases (code c == 0)) [
  | inl zero_ ↦ absurd (cc (rw zero_ at h))
  | inr other ↦ rw other (ap (String.◌∷◌ c) (clean_text-fixed s (rw other at h)))
]

-- A text is stored as it is exactly if it holds no U+0000.
pub clean_text_iff : (s : String) → (clean_text s ≡ s) ↔ (has_null s ≡ false)
clean_text_iff s = (λ e. sym (ap has_null e) ∙ clean_text-has_null s, clean_text-fixed s)

-- Whatever number is asked for, and where it is none at all, a page has from one message to the cap, if
-- the cap is at least one.
pub clamp_page_limit_lem :
    (limit : PageLimit) (cap_ : ℕ)
    → 1 ≤ cap_
    → (1 ≤ clamp_page_limit limit cap_) × (clamp_page_limit limit cap_ ≤ cap_)
unfolding clamp_page_limit
clamp_page_limit_lem not_finite cap_ h = (h, omega arith)
clamp_page_limit_lem (whole n) cap_ h = (omega (arith, h), omega (arith, h))
clamp_page_limit_lem (below_zero n) cap_ h = (omega (arith, h), omega (arith, h))
