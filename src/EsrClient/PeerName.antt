-- ===== src/EsrClient/PeerName.antt =====
-- utils/esr_peer_info.cpp: the words of a node's name, as the parser reads them.
use bzapi.Base.{
  not_positive, if-true, if-false, ℕ, zero, suc, ◌≡◌, refl, sym, ap, ◌∙◌, ◌+◌, ◌<◌, List, [], ◌∷◌,
  ◌++◌, if◌then◌else◌, nat_beq, length, All, All-append, arith,
}
use mathlib.Core.List.{append_assoc, append-nil}
use bzapi.Base.Text.{Bytes}
use bzapi.EsrClient.Replies.{
  trim_right_nulls, InfoState, node_name, finished, Info, read_info, info_loop,
}
use bzapi.EsrClient.Words.{IsByte, low_hex, hex_to_char_string-low_hex}
use bzapi.EsrClient.Results.{nulls, string_words, trim_right_nulls-nulls, length-append}
use bzapi.EsrClient.IdStrings.{nulls-IsByte}

-- A byte of a text: not null.
abbrev pub IsText : ℕ → Type 0
IsText c = (0 < c) × (c < 256)

pub trim_right_nulls-IsText : (text : Bytes) → All IsText text → trim_right_nulls text ≡ text
unfolding trim_right_nulls
trim_right_nulls-IsText [] all = refl
trim_right_nulls-IsText (c ∷ []) (this, others) = ground arith
trim_right_nulls-IsText (c ∷ d ∷ cs) (this, others) =
    rw (trim_right_nulls-IsText (d ∷ cs) others, trim_right_nulls) refl

pub IsText-IsByte : (text : Bytes) → All IsText text → All IsByte text
IsText-IsByte [] all = tt
IsText-IsByte (c ∷ cs) (this, others) = (this.1, IsText-IsByte cs others)

abbrev pub at : InfoState → ℕ → ℕ → Bytes → Bytes → Info
at state size port host name = record {
  state = state;
  text_size = size;
  port = port;
  host = host;
  name = name;
}

abbrev after_name : ℕ → ℕ → Bytes → Bytes → Info
after_name size port host name =
    at (if nat_beq size (length name) then finished else node_name) size port host name

-- One word of the name.
info_loop-word :
    (bytes : Bytes) (size port : ℕ) (host name : Bytes) (rest : List Bytes) {trimmed : Bytes}
    → All IsByte bytes
    → trim_right_nulls (name ++ bytes) ≡ trimmed
    → info_loop (low_hex bytes ∷ rest) (at node_name size port host name)
      ≡ info_loop rest (after_name size port host trimmed)
unfolding info_loop read_info
info_loop-word bytes size port host name rest small e =
    rw (hex_to_char_string-low_hex bytes small, e) refl

info_loop-ended :
    (size port : ℕ) (host name : Bytes) (rest : List Bytes)
    → length name ≡ size
    → info_loop rest (after_name size port host name)
      ≡ info_loop rest (at finished size port host name)
info_loop-ended size port host name rest e =
    ap (λ s. info_loop rest (at s size port host name))
      (if-true _ _ (nat_beq size (length name)) (ground arith))

info_loop-unended :
    (size port : ℕ) (host name : Bytes) (rest : List Bytes)
    → length name < size
    → info_loop rest (after_name size port host name)
      ≡ info_loop rest (at node_name size port host name)
info_loop-unended size port host name rest e =
    ap (λ s. info_loop rest (at s size port host name))
      (if-false _ _ (nat_beq size (length name)) (ground arith))

pub info_loop-name :
    (room : ℕ) (part cs : Bytes) (size port : ℕ) (host name : Bytes) (rest : List Bytes)
    → All IsText name
    → All IsText part
    → All IsText cs
    → length name + (length part + length cs) ≡ size
    → 0 < length part + length cs
    → info_loop (string_words room part cs ++ rest) (at node_name size port host name)
      ≡ info_loop rest (at finished size port host (name ++ (part ++ cs)))
unfolding string_words
info_loop-name room [] [] size port host name rest t1 t2 t3 total some =
    elim (not_positive some) [ ]
info_loop-name room (b ∷ part) [] size port host name rest t1 t2 t3 total some =
    info_loop-word ((b ∷ part) ++ nulls (suc room)) size port host name rest
      (All-append IsByte (b ∷ part) (nulls (suc room)) (IsText-IsByte (b ∷ part) t2)
        (nulls-IsByte (suc room)))
      (ap trim_right_nulls (sym (append_assoc name (b ∷ part) (nulls (suc room))))
        ∙ trim_right_nulls-nulls (name ++ (b ∷ part)) (suc room)
        ∙ trim_right_nulls-IsText (name ++ (b ∷ part)) (All-append IsText name (b ∷ part) t1 t2)
        ∙ ap (λ x. name ++ x) (sym (append-nil (b ∷ part))))
    ∙ info_loop-ended size port host (name ++ ((b ∷ part) ++ [])) rest
        (rw (length-append name (b ∷ (part ++ [])), append-nil part) (omega arith))
info_loop-name zero part (c ∷ []) size port host name rest t1 t2 (this, others) total some =
    info_loop-word (part ++ (c ∷ [])) size port host name rest
      (All-append IsByte part (c ∷ []) (IsText-IsByte part t2) (this.1, tt))
      (trim_right_nulls-IsText (name ++ (part ++ (c ∷ []))) (
        All-append IsText name (part ++ (c ∷ [])) t1
          (All-append IsText part (c ∷ []) t2 (this, tt))))
    ∙ info_loop-ended size port host (name ++ (part ++ (c ∷ []))) rest
        (rw (length-append name (part ++ (c ∷ [])), length-append part (c ∷ [])) (omega arith))
info_loop-name zero part (c ∷ d ∷ cs) size port host name rest t1 t2 (this, others) total some =
    let bytes = part ++ (c ∷ []) in
    let text = All-append IsText name bytes t1 (All-append IsText part (c ∷ []) t2 (this, tt)) in
    info_loop-word bytes size port host name _
      (All-append IsByte part (c ∷ []) (IsText-IsByte part t2) (this.1, tt))
      (trim_right_nulls-IsText (name ++ bytes) text)
    ∙ info_loop-unended size port host (name ++ bytes) _
        (rw (length-append name bytes, length-append part (c ∷ [])) (omega arith))
    ∙ info_loop-name 31 [] (d ∷ cs) size port host (name ++ bytes) rest text tt others
        (rw (length-append name bytes, length-append part (c ∷ [])) (omega arith)) (omega arith)
    ∙ ap (λ x. info_loop rest (at finished size port host x))
        (append_assoc name bytes (d ∷ cs)
          ∙ ap (λ x. name ++ x) (append_assoc part (c ∷ []) (d ∷ cs)))
info_loop-name (suc room) part (c ∷ cs) size port host name rest t1 t2 (this, others) total some =
    info_loop-name room (part ++ (c ∷ [])) cs size port host name rest t1
      (All-append IsText part (c ∷ []) t2 (this, tt)) others
      (rw (length-append part (c ∷ [])) (omega arith))
      (rw (length-append part (c ∷ [])) (omega arith))
    ∙ ap (λ x. info_loop rest (at finished size port host (name ++ x)))
        (append_assoc part (c ∷ []) cs)
