-- ===== src/EsrClient/IdStrings.antt =====
-- utils/esr_peer_info.cpp: the strings of a list of ids, as the parser reads them.
use bzapi.Base.{
  not_positive, if-false, ℕ, zero, suc, ◌≡◌, refl, sym, ap, ◌∙◌, subst, ◌+◌, ◌-◌, ◌%◌, ◌^◌, ◌<◌,
  List, [], ◌∷◌, ◌++◌, if◌then◌else◌, nat_beq, length, All, All-append, arith,
}
use mathlib.Core.List.{append_assoc, append-nil}
use bzapi.Base.Text.{Bytes}
use bzapi.Base.Outcome.{done}
use bzapi.EsrClient.Replies.{trim_right_nulls, peer_id_size, peer_id, Peers, read_peers, peers_loop}
use bzapi.EsrClient.Words.{word, IsByte, strtoul-word}
use bzapi.EsrClient.Results.{
  nulls, string_words, strings_words, read_ids, trim_right_nulls-nulls, length-append, at,
  peers_loop-last, peers_loop-more,
}

pub nulls-IsByte : (n : ℕ) → All IsByte (nulls n)
nulls-IsByte zero = tt
nulls-IsByte (suc n) = (omega arith, nulls-IsByte n)

-- An id is read to its end.
abbrev IsRead : List Bytes → Peers → List Bytes → ℕ → ℕ → List Bytes → Bytes → Type 0
IsRead words p rest count size results out =
    (i : ℕ) × (peers_loop words p
      ≡ peers_loop rest (at peer_id_size count i [] size (results ++ (out ∷ []))))

peers_loop-string :
    (room : ℕ) (part cs id : Bytes) (count index size : ℕ) (results rest : List Bytes)
    → length part + room ≡ 31
    → All IsByte part
    → All IsByte cs
    → length id + (length part + length cs) ≡ size
    → 0 < length part + length cs
    → IsRead
        (string_words room part cs ++ rest)
        (at peer_id count index id size results)
        rest
        count
        size
        results
        (trim_right_nulls (id ++ (part ++ cs)))
unfolding string_words
peers_loop-string room [] [] id count index size results rest fill bs1 bs2 total some =
    elim (not_positive some) [ ]
peers_loop-string room (b ∷ part) [] id count index size results rest fill bs1 bs2 total some =
    subst (IsRead _ _ rest count size results)
      (ap trim_right_nulls (sym (append_assoc id (b ∷ part) (nulls (suc room))))
        ∙ trim_right_nulls-nulls (id ++ (b ∷ part)) (suc room)
        ∙ ap (λ x. trim_right_nulls (id ++ x)) (sym (append-nil (b ∷ part))))
      (
        index + 1,
        peers_loop-last ((b ∷ part) ++ nulls (suc room)) id count index size results rest
            (All-append IsByte (b ∷ part) (nulls (suc room)) bs1 (nulls-IsByte (suc room)))
            (rw
              (
                length-append id ((b ∷ part) ++ nulls (suc room)),
                length-append part (0 ∷ nulls room),
              )
              (omega arith)),
      )
peers_loop-string zero part (c ∷ []) id count index size results rest fill bs1 bs2 total some = (
  index + 1,
  peers_loop-last (part ++ (c ∷ [])) id count index size results rest
      (All-append IsByte part (c ∷ []) bs1 bs2)
      (rw (length-append id (part ++ (c ∷ [])), length-append part (c ∷ [])) (omega arith)),
)
peers_loop-string zero part (c ∷ d ∷ cs) id count index size results rest fill bs1 (this, others)
      total some =
    let word_bytes = part ++ (c ∷ []) in
    let (i, e) =
      peers_loop-string 31 [] (d ∷ cs) (id ++ word_bytes) count (index + 1) size results rest refl
        tt others (rw (length-append id word_bytes, length-append part (c ∷ [])) (omega arith))
        (omega arith) in
    subst (IsRead _ _ rest count size results)
      (ap trim_right_nulls (
        append_assoc id word_bytes (d ∷ cs)
        ∙ ap (λ x. id ++ x) (append_assoc part (c ∷ []) (d ∷ cs))))
      (
        i,
        peers_loop-more word_bytes id count index size results _
              (All-append IsByte part (c ∷ []) bs1 (this, tt))
              (rw (length-append id word_bytes, length-append part (c ∷ [])) (omega arith))
            ∙ e,
      )
peers_loop-string (suc room) part (c ∷ cs) id count index size results rest fill bs1 (this, others)
      total some =
    subst (IsRead _ _ rest count size results)
      (ap (λ x. trim_right_nulls (id ++ x)) (append_assoc part (c ∷ []) cs))
      (peers_loop-string room (part ++ (c ∷ [])) cs id count index size results rest
        (rw (length-append part (c ∷ [])) (omega arith))
        (All-append IsByte part (c ∷ []) bs1 (this, tt)) others
        (rw (length-append part (c ∷ [])) (omega arith))
        (rw (length-append part (c ∷ [])) (omega arith)))

-- The size of an id.
peers_loop-size :
    (n count index size : ℕ) (results rest : List Bytes)
    → n < 2 ^ 64
    → peers_loop (word n ∷ rest) (at peer_id_size count index [] size results) ≡ (
        if nat_beq n 0
        then peers_loop rest
            (at peer_id_size ((count + (2 ^ 64 - 1)) % 2 ^ 64) (index + 1) [] n results)
        else peers_loop rest (at peer_id count (index + 1) [] n results))
unfolding peers_loop read_peers
peers_loop-size n count index size results rest small = rw (strtoul-word n small) (ground arith)

-- A string that the contract can return: bytes, fewer than 2 ^ 64.
abbrev pub IsString : Bytes → Type 0
IsString id = All IsByte id × (length id < 2 ^ 64)

peers_loop-nil : (p : Peers) → peers_loop [] p ≡ done p.results
unfolding peers_loop
peers_loop-nil p = refl

pub peers_loop-strings :
    (ids : List Bytes) (count index size : ℕ) (results : List Bytes)
    → All IsString ids
    → peers_loop (strings_words ids) (at peer_id_size count index [] size results)
      ≡ done (results ++ read_ids ids)
unfolding strings_words string_words
peers_loop-strings [] count index size results ok =
    peers_loop-nil _ ∙ ap done (sym (append-nil results))
peers_loop-strings ([] ∷ ids) count index size results ((bytes, small), others) =
    peers_loop-size 0 count index size results (strings_words ids) small
    ∙ peers_loop-strings ids _ (index + 1) 0 results others
peers_loop-strings ((c ∷ cs) ∷ ids) count index size results ((bytes, small), others) =
    let id : Bytes = c ∷ cs in
    let (i, e) =
      peers_loop-string 31 [] id [] count (index + 1) (length id) results (strings_words ids) refl
        tt bytes (omega arith) (omega arith) in
    peers_loop-size (length id) count index size results _ small
    ∙ if-false _ _ (nat_beq (length id) 0) (ground arith)
    ∙ e
    ∙ peers_loop-strings ids count i (length id) (results ++ (trim_right_nulls id ∷ [])) others
    ∙ ap done (append_assoc results (trim_right_nulls id ∷ []) (read_ids ids))
