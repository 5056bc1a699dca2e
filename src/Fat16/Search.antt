-- ===== src/Fat16/Search.antt =====
-- What `fat16_find_item_in_directory` of src/kernel/fs/fat16.c finds, and where it does not end.
use asif_os.Prelude.{
  ℕ, zero, suc, ◌<◌, ◌≡◌, ◌≢◌, refl, sym, ap, ◌∙◌, arith, true, false, some, List, [], ◌∷◌, ◌++◌,
  All, if◌then◌else◌, length, drop, pick_else, inl, inr, Bool-cases, subst,
}
use asif_os.Kern.Str.{strcmpk, is_zero}
use asif_os.Kern.Str.Compare.{IsChar, is_zero_iff, strcmpk_zero, strcmpk_same}
use asif_os.Fat16.{entry_size}
use asif_os.Fat16.Name.{plain_item_name, drop-append}
use asif_os.Fat16.Find.{Search, found, missing, running, compare_name, find_item}

-- Entries in memory, one behind the other, and their names: 32 bytes each, occupied, and with the name
-- that the driver reads whatever stands behind the entry.
pub record IsEntry (entry name : List ℕ) : Type 0 where
  pub first : ℕ
  pub others : List ℕ
  pub bytes : entry ≡ first ∷ others
  pub size : length entry ≡ entry_size
  pub in_use : first ≢ 0
  pub not_free : first ≢ 0xe5
  pub named : (rest : List ℕ) → plain_item_name (entry ++ rest) ≡ some name
  pub chars : All IsChar name

pub data Directory : List ℕ → List (List ℕ × List ℕ) → Type 0 where
  end_of : (rest : List ℕ) → Directory (0 ∷ rest) []
  entry_of :
      {items rest entry name : List ℕ} {entries : List (List ℕ × List ℕ)}
      → IsEntry entry name
      → Directory rest entries
      → items ≡ entry ++ rest
      → Directory items ((entry, name) ∷ entries)

-- The search for a name: the memory from the first entry with it on.
pub data FirstNamed (part : List ℕ) : List ℕ → List (List ℕ × List ℕ) → Search → Type 0 where
  nothing : {items : List ℕ} → FirstNamed part items [] missing
  here :
      {items entry name : List ℕ} {entries : List (List ℕ × List ℕ)}
      → name ≡ part
      → FirstNamed part items ((entry, name) ∷ entries) (found items)
  later :
      {items entry name : List ℕ} {entries : List (List ℕ × List ℕ)} {result : Search}
      → name ≢ part
      → FirstNamed part (drop entry_size items) entries result
      → FirstNamed part items ((entry, name) ∷ entries) result

find_item-occupied :
    (fuel : ℕ) (items part entry name rest : List ℕ)
    → IsEntry entry name
    → items ≡ entry ++ rest
    → find_item (suc fuel) items part ≡ (
        if is_zero (strcmpk name part)
        then found items
        else find_item fuel (drop entry_size items) part)
unfolding find_item
find_item-occupied fuel items part entry name rest e at =
    let start : items ≡ e.first ∷ (e.others ++ rest) = at ∙ ap (λ bytes. bytes ++ rest) e.bytes in
    ap (λ bytes. find_item (suc fuel) bytes part) start
    ∙ pick_else e.in_use missing _
    ∙ pick_else e.not_free _ _
    ∙ ap
        (λ bytes.
          compare_name bytes part (plain_item_name bytes)
            (find_item fuel (drop entry_size bytes) part))
        (sym start)
    ∙ ap (λ read. compare_name items part read (find_item fuel (drop entry_size items) part))
        (ap plain_item_name at ∙ e.named rest)

find_item-ends : (fuel : ℕ) (rest part : List ℕ) → find_item (suc fuel) (0 ∷ rest) part ≡ missing
unfolding find_item
find_item-ends fuel rest part = refl

behind :
    (items entry name rest : List ℕ)
    → IsEntry entry name
    → items ≡ entry ++ rest
    → drop entry_size items ≡ rest
behind items entry name rest e at =
    ap (drop entry_size) at ∙ drop-append entry_size entry rest (sym e.size)

zero_same : (name part : List ℕ) → name ≡ part → is_zero (strcmpk name part) ≡ true
zero_same name part same = ap (λ n. is_zero (strcmpk n part)) same ∙ ap is_zero (strcmpk_same part)

-- In a directory of occupied entries, for a name of bytes that are not NUL, the search ends within a
-- round for each entry and one more, with the memory from the first entry of the name on, or `missing`
-- when there is none.
pub find_item_lem :
    (items part : List ℕ) (entries : List (List ℕ × List ℕ)) (fuel : ℕ)
    → Directory items entries
    → All IsChar part
    → length entries < fuel
    → FirstNamed part items entries (find_item fuel items part)
find_item_lem items part entries zero d chars lt = absurd (omega arith)
find_item_lem items part entries (suc fuel) (end_of rest) chars lt =
    subst (FirstNamed part (0 ∷ rest) []) (sym (find_item-ends fuel rest part)) nothing
find_item_lem items part entries (suc fuel)
      (entry_of {rest} {entry} {name} {entries = others} e d at) chars lt =
    let found_here = find_item-occupied fuel items part entry name rest e at in
    let rest_at = behind items entry name rest e at in
    elim (Bool-cases (is_zero (strcmpk name part))) [
      | inl same ↦
          subst (FirstNamed part items ((entry, name) ∷ others))
            (sym (
              found_here
              ∙ ap (λ b. if b then found items else find_item fuel (drop entry_size items) part)
                  same))
            (here (strcmpk_zero name part e.chars chars ((is_zero_iff (strcmpk name part)).0 same)))
      | inr differ ↦
          subst (FirstNamed part items ((entry, name) ∷ others))
            (sym (
              found_here
              ∙ ap (λ b. if b then found items else find_item fuel (drop entry_size items) part)
                  differ))
            (later (λ same. false_true (sym differ ∙ zero_same name part same))
              (subst (λ m. FirstNamed part m others (find_item fuel m part)) (sym rest_at)
                (find_item_lem rest part others fuel d chars (omega arith))))
    ]
  where
    false_true : false ≡ true → ⊥
    false_true e = cc

-- A search that comes to an entry that is free never ends.
pub find_item-running :
    (fuel : ℕ) (rest part : List ℕ) → find_item fuel (0xe5 ∷ rest) part ≡ running
unfolding find_item
find_item-running zero rest part = refl
find_item-running (suc fuel) rest part = find_item-running fuel rest part
