-- ===== src/Client/PrinterParams/Copies.antt =====
-- The parameters of a printer own their texts.
use quadrocopt.Base.{
  ℕ, ◌+◌, ◌≡◌, refl, arith, List, [], ◌∷◌, ◌++◌, length, some, ok, read_at-append, length-append,
}
use mathlib.Core.List.{append_assoc}
use quadrocopt.Heap.{Heap, block_at, copy_arr_of_floats, live}
use quadrocopt.Heap.Laws.{Points, points, free-Freed, block_at-append, block_at-new, live-new}
use quadrocopt.Text.Strings.{IsText, strlen-append}
use quadrocopt.Client.Printing.{OutputStream, ParametersPayloadType}
use quadrocopt.Client.PrinterParams.{
  PrinterParameters, copy_str, initialize_printer_params, copy_printer_params, free_printer_params,
}

-- A block of memory with a text in it, and anything behind its NUL.
pub record HasText (h : Heap ℕ) (i : ℕ) (text : List ℕ) : Type 0 where
  pub after : List ℕ
  pub at : block_at h i ≡ ok (text ++ 0 ∷ after)
  pub is_text : IsText text

pub HasText-append :
    {h : Heap ℕ} {i : ℕ} {text : List ℕ} (t : Heap ℕ) → HasText h i text → HasText (h ++ t) i text
HasText-append {h} {i} t has = record {
  after = has.after;
  at = block_at-append h t i has.at;
  is_text = has.is_text;
}

-- The heap with a copy of a text.
abbrev pub copied : Heap ℕ → List ℕ → Heap ℕ
copied h text = h ++ some (text ++ 0 ∷ []) ∷ []

pub length-copied : (h : Heap ℕ) (text : List ℕ) → length (copied h text) ≡ length h + 1
length-copied h text = length-append h (some (text ++ 0 ∷ []) ∷ [])

pub copied-HasText :
    (h : Heap ℕ) (text : List ℕ) → IsText text → HasText (copied h text) (length h) text
copied-HasText h text is = record { after = []; at = block_at-new h (text ++ 0 ∷ []); is_text = is }

pub copy_str-copied :
    (h : Heap ℕ) (i : ℕ) (text : List ℕ)
    → HasText h i text
    → copy_str h (some i) ≡ ok (some (length h), copied h text)
unfolding copy_str copy_arr_of_floats
copy_str-copied h i text has =
    let reads =
      read_at-append [] (text ++ 0 ∷ []) has.after 0 (length text + 1) refl
        (omega (arith, length-append text (0 ∷ []))) in
    rw has.at (
      rw (strlen-append text has.after has.is_text)
        (rw (rw (append_assoc text (0 ∷ []) has.after) at reads) refl))

-- In the memory of texts, where the structures are values and have no block: parameters made of
-- two texts, and a copy made of them: each has its own two blocks, so that when the texts of the
-- first are freed the copy still has both, and its two blocks are the only two texts more in use.
pub copy_printer_params-free :
    (h : Heap ℕ) (out : OutputStream) (payload : ParametersPayloadType) (p q : ℕ)
    (path mode : List ℕ)
    → HasText h p path
    → HasText h q mode
    → (params dupl : PrinterParameters) × (h' h'' h''' : Heap ℕ) × (initialize_printer_params h out
          payload
          (some p)
          (some q)
        ≡ ok (params, h'))
      × (copy_printer_params h' params ≡ ok (dupl, h''))
      × (free_printer_params h'' params ≡ ok h''')
      × Points h''' dupl.file_path (path ++ 0 ∷ [])
      × Points h''' dupl.open_mode (mode ++ 0 ∷ [])
      × (live h''' ≡ live h + 2)
unfolding initialize_printer_params copy_printer_params free_printer_params
copy_printer_params-free h out payload p q path mode has_path has_mode =
    let h1 = copied h path in
    let h2 = copied h1 mode in
    let h3 = copied h2 path in
    let h4 = copied h3 mode in
    let n1 = length-copied h path in
    let n2 = length-copied h1 mode in
    let n3 = length-copied h2 path in
    let first = copied-HasText h path has_path.is_text in
    let second = copied-HasText h1 mode has_mode.is_text in
    let first_at_2 = HasText-append (some (mode ++ 0 ∷ []) ∷ []) first in
    let first_at_3 = HasText-append (some (path ++ 0 ∷ []) ∷ []) first_at_2 in
    let first_at_4 = HasText-append (some (mode ++ 0 ∷ []) ∷ []) first_at_3 in
    let second_at_3 = HasText-append (some (path ++ 0 ∷ []) ∷ []) second in
    let second_at_4 = HasText-append (some (mode ++ 0 ∷ []) ∷ []) second_at_3 in
    let third_at_4 =
      block_at-append h3 (some (mode ++ 0 ∷ []) ∷ []) (length h2)
        (block_at-new h2 (path ++ 0 ∷ [])) in
    let f = free-Freed h4 (some (length h)) (points first_at_4.at) in
    let g =
      free-Freed f.after (some (length h1))
        (points (f.keeps (length h1) _ (λ e. ground arith) second_at_4.at)) in
    (
      record {
        out_stream = out;
        payload_type = payload;
        file_path = some (length h);
        open_mode = some (length h1);
      },
      record {
        out_stream = out;
        payload_type = payload;
        file_path = some (length h2);
        open_mode = some (length h3);
      },
      h2,
      h4,
      g.after,
      rw (copy_str-copied h p path has_path) (
          rw (copy_str-copied h1 q mode (HasText-append (some (path ++ 0 ∷ []) ∷ []) has_mode))
            refl),
      rw (copy_str-copied h2 (length h) path first_at_2)
          (rw (copy_str-copied h3 (length h1) mode second_at_3) refl),
      rw f.frees (rw g.frees refl),
      g.keeps (length h2) _ (λ e. ground arith)
          (f.keeps (length h2) _ (λ e. ground arith) third_at_4),
      g.keeps (length h3) _ (λ e. ground arith)
          (f.keeps (length h3) _ (λ e. ground arith) (block_at-new h3 (mode ++ 0 ∷ []))),
      omega (
        arith,
        f.count,
        g.count,
        live-new h (path ++ 0 ∷ []),
        live-new h1 (mode ++ 0 ∷ []),
        live-new h2 (path ++ 0 ∷ []),
        live-new h3 (mode ++ 0 ∷ []),
      ),
    )
