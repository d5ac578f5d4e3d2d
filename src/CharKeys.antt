-- ===== src/CharKeys.antt =====
-- The hooks of unit/optimizer/histogram_cl.char_keys/hooks.cpp, at a revision that re-pads CHAR values
-- and at one that does not. The engine's functions are a parameter; a string is the list of its bytes.
use dev4_review_workspace.Prelude.{
  ℕ, ◌≡◌, refl, Bool, true, false, not, ◌||◌, Option, none, some, List, if◌then◌else◌, ℤ,
}

-- Whether hist_repad_ctx, histogram_repad_ctx and histogram_repad_char_value exist
pub data RepadRevision : Type 0 where
  without_repad with_repad : RepadRevision

-- hist_repad_ctx
pub record RepadCtx : Type 0 where
  pub type : ℤ
  pub precision : ℤ
  pub codeset : ℤ

-- hist::histogram_key: whether its kind is `str`, and its string
pub record HistogramKey : Type 0 where
  pub is_str : Bool
  pub str : List ℕ

-- histogram_extract_key with or without the column's type: its result and the key
pub data Extractor (Value : Type 0) : Type 0 where
  by_type : (Value → ℤ → Bool × HistogramKey) → Extractor Value
  by_value : (Value → Bool × HistogramKey) → Extractor Value

pub record CharEngine : Type 1 where
  pub Reader : Type 0
  pub Value : Type 0
  -- the value re-padded, and the buffer that may hold it
  pub repad_char_value : List ℕ → RepadCtx → List ℕ → List ℕ × List ℕ
  pub repad_ctx : Reader → ℤ → RepadCtx
  pub extract_key : Extractor Value

-- A value with the buffer, and `*present`
pub record Repadded : Type 0 where
  pub value : List ℕ
  pub buf : List ℕ
  pub present : Bool

module _ (e : CharEngine) where
  unfoldable pub unitseam_repad_t : RepadRevision → List ℕ → RepadCtx → List ℕ → Repadded
  unitseam_repad_t without_repad value ctx buf = record {
    value = value;
    buf = buf;
    present = false;
  }
  unitseam_repad_t with_repad value ctx buf =
      let (padded, after) = e.repad_char_value value ctx buf in
      record { value = padded; buf = after; present = true }

  unfoldable pub unitseam_repad : RepadRevision → List ℕ → ℤ → ℤ → ℤ → List ℕ → Repadded
  unfolding unitseam_repad_t
  unitseam_repad revision value type precision codeset buf =
      unitseam_repad_t revision value
        (record { type = type; precision = precision; codeset = codeset }) buf

  -- `*type`, `*precision` and `*codeset`, none where they are not written
  unfoldable pub unitseam_ctx_t : RepadRevision → e.Reader → ℤ → Option RepadCtx
  unitseam_ctx_t without_repad reader collation_id = none
  unitseam_ctx_t with_repad reader collation_id = some (e.repad_ctx reader collation_id)

  unfoldable pub unitseam_repad_ctx : RepadRevision → e.Reader → ℤ → Option RepadCtx
  unfolding unitseam_ctx_t
  unitseam_repad_ctx revision reader collation_id = unitseam_ctx_t revision reader collation_id

  unfoldable pub unitseam_via_reader_t : RepadRevision → e.Reader → ℤ → List ℕ → List ℕ → Repadded
  unitseam_via_reader_t without_repad reader collation_id value buf = record {
    value = value;
    buf = buf;
    present = false;
  }
  unitseam_via_reader_t with_repad reader collation_id value buf =
      let (padded, after) = e.repad_char_value value (e.repad_ctx reader collation_id) buf in
      record { value = padded; buf = after; present = true }

  unfoldable pub unitseam_repad_via_reader :
      RepadRevision → e.Reader → ℤ → List ℕ → List ℕ → Repadded
  unfolding unitseam_via_reader_t
  unitseam_repad_via_reader revision reader collation_id value buf =
      unitseam_via_reader_t revision reader collation_id value buf

  -- The result, the key and `*by_column`
  unfoldable pub unitseam_extract_t : Extractor e.Value → e.Value → ℤ → (Bool × HistogramKey) × Bool
  unitseam_extract_t (by_type f) v column_type = (f v column_type, true)
  unitseam_extract_t (by_value f) v column_type = (f v, false)

  -- `*out`, none where the hook returns false, and `*by_column`
  unfoldable pub unitseam_extract_str_key : e.Value → ℤ → Option (List ℕ) × Bool
  unfolding unitseam_extract_t
  unitseam_extract_str_key v column_type =
      let ((found, k), by_column) = unitseam_extract_t e.extract_key v column_type in
      (if not found || not k.is_str then none else some k.str, by_column)

  -- Re-padding by a reader is the unpacked context and then the re-padding by it, where the revision
  -- has a context, and leaves the value and the buffer where it has none.
  via_reader-repad :
      (revision : RepadRevision) (reader : e.Reader) (collation_id : ℤ) (value buf : List ℕ)
      → unitseam_repad_via_reader revision reader collation_id value buf
        ≡ elim (unitseam_repad_ctx revision reader collation_id) [
          | none ↦ record { value = value; buf = buf; present = false }
          | some ctx ↦ unitseam_repad revision value ctx.type ctx.precision ctx.codeset buf
        ]
  unfolding unitseam_repad_via_reader unitseam_via_reader_t unitseam_repad_ctx unitseam_ctx_t
      unitseam_repad unitseam_repad_t
  via_reader-repad without_repad reader collation_id value buf = refl
  via_reader-repad with_repad reader collation_id value buf = refl
