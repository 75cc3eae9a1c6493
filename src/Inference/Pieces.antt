-- ===== src/Inference/Pieces.antt =====
-- src/inference.c: the pieces that a model deals out, and what `token_callback_t` is to do with them.
use professor_ai.Prelude.{
  ℕ, zero, suc, ◌≤◌, ◌≡◌, Bool, true, false, some, List, [], ◌∷◌, ◌++◌, length, arith,
}
use professor_ai.Prelude.Bytes.{Bytes}
use professor_ai.Inference.Generate.{Model, c_string, piece_bytes}

-- The pieces of a list as one text.
unfoldable pub joined_pieces : List Bytes → Bytes
joined_pieces [] = []
joined_pieces (p ∷ ps) = p ++ joined_pieces ps

-- The texts of the next `n` tokens of a model, whoever listens.
unfoldable pub deal : (m : Model) → ℕ → m.Ctx → List Bytes
deal m zero ctx = []
deal m (suc n) ctx =
    let (token, ctx') = m.sample ctx in
    let rest = deal m n (m.decode ctx' token).1 in c_string (piece_bytes m token) ∷ rest

-- A callback that keeps a text: a piece of at most `limit` bytes is appended whole, or refused and
-- the text left alone.
pub record Collects {S : Type 0} (limit : ℕ) (cb : S → Bytes → S × Bool) : Type 1 where
  pub text : S → Bytes
  pub Holds : S → Type 0
  pub keeps : (s : S) (p : Bytes) → length p ≤ limit → Holds s → Holds (cb s p).0
  pub appends :
      (s : S) (p : Bytes)
      → length p ≤ limit
      → Holds s
      → (cb s p).1 ≡ true
      → text (cb s p).0 ≡ text s ++ p
  pub refuses :
      (s : S) (p : Bytes)
      → length p ≤ limit
      → Holds s
      → (cb s p).1 ≡ false
      → text (cb s p).0 ≡ text s

-- `llama_token_to_piece` writes no more than the bytes it is given, of which there are 255.
abbrev pub HasShortPieces : ℕ → Model → Type 0
HasShortPieces limit m = (token : m.Token) (p : Bytes) → m.piece token ≡ some p → length p ≤ limit

pub c_string-length : (s : Bytes) → length (c_string s) ≤ length s
unfolding c_string
c_string-length [] = omega arith
c_string-length (c ∷ s) = let ih = c_string-length s in ground (arith, ih)
