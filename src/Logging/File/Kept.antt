-- ===== src/Logging/File/Kept.antt =====
-- The log of a run in its file, where each call of src/logging.c opens and closes it.
use restaurante_so.Prelude.{
  ℕ, ◌≤◌, ◌≡◌, ◌≢◌, refl, ap, sym, ◌∙◌, Bool-cases, inl, inr, true, false, ◌&&◌, ◌==◌, Option, none,
  some, List, [], ◌∷◌, ◌++◌, append_assoc, append-nil, if-true, if-false, arith,
}
use restaurante_so.Problem.{FullStat, max_groups}
use restaurante_so.Setup.{Config, initial_status}
use restaurante_so.System.{System, Reach}
use restaurante_so.Logging.{create_log, state_line}
use restaurante_so.Logging.File.{
  Disk, Mode, for_writing, for_appending, FileCalls, file, Logged, logged, exit_failure, same_name,
  set_file, text_at_open, open_log, close_log, print, print_and_close, create_log_file,
  save_state_file,
}
use restaurante_so.History.Log.{lines, log_reads_back}

-- Every call succeeds.
pub record IsWorking (sys : FileCalls) : Type 0 where
  pub opens : (mode : Mode) (name : List ℕ) (d : Disk) → sys.fopen mode name d ≡ true
  pub closes : (name : List ℕ) (d : Disk) → sys.fclose name d ≡ true

-- What the log's file, or else the standard output, holds; what of it createLog keeps; and that
-- nothing else has changed.
abbrev pub shown : Option (List ℕ) → Disk → Option (List ℕ)
shown none d = some d.out
shown (some []) d = some d.out
shown (some (c ∷ s)) d = d.files (c ∷ s)

abbrev pub kept : Option (List ℕ) → Disk → List ℕ
kept none d = d.out
kept (some []) d = d.out
kept (some (c ∷ s)) d = []

abbrev pub RestKept : Option (List ℕ) → Disk → Disk → Type 0
RestKept none d e = e.files ≡ d.files
RestKept (some []) d e = e.files ≡ d.files
RestKept (some (c ∷ s)) d e =
    (e.out ≡ d.out) × ((other : List ℕ) → other ≢ (c ∷ s) → e.files other ≡ d.files other)

RestKept-trans :
    (name : Option (List ℕ)) (a b c : Disk)
    → RestKept name a b
    → RestKept name b c
    → RestKept name a c
RestKept-trans none a b c p q = q ∙ p
RestKept-trans (some []) a b c p q = q ∙ p
RestKept-trans (some (x ∷ s)) a b c p q = (q.0 ∙ p.0, λ other ne. q.1 other ne ∙ p.1 other ne)

same_name_refl : (s : List ℕ) → same_name s s ≡ true
unfolding same_name
same_name_refl [] = refl
same_name_refl (a ∷ s) = ground (arith, same_name_refl s)

same_name-ne : (s t : List ℕ) → s ≢ t → same_name s t ≡ false
unfolding same_name
same_name-ne [] [] ne = absurd (ne refl)
same_name-ne [] (b ∷ t) ne = refl
same_name-ne (a ∷ s) [] ne = refl
same_name-ne (a ∷ s) (b ∷ t) ne = elim (Bool-cases (a == b)) [
  | inl e ↦
      let same : a ≡ b = ground (arith, e) in
      let tails = same_name-ne s t (λ p. ne (ap (λ x. x ∷ s) same ∙ ap (λ u. b ∷ u) p)) in
      rw e tails
  | inr e ↦ ap (λ x. x && same_name s t) e
]

set_file-same : (name text : List ℕ) (d : Disk) → (set_file name text d).files name ≡ some text
unfolding set_file
set_file-same name text d = if-true (d.files name) (same_name_refl name)

set_file-other :
    (name text : List ℕ) (d : Disk) (other : List ℕ)
    → other ≢ name
    → (set_file name text d).files other ≡ d.files other
unfolding set_file
set_file-other name text d other ne = if-false (some text) (same_name-ne other name ne)

-- What the log holds when it has been opened.
abbrev held : Mode → Option (List ℕ) → Disk → List ℕ
held mode none d = d.out
held mode (some []) d = d.out
held mode (some (c ∷ s)) d = text_at_open mode (d.files (c ∷ s))

held-writing : (name : Option (List ℕ)) (d : Disk) → held for_writing name d ≡ kept name d
unfolding text_at_open
held-writing none d = refl
held-writing (some []) d = refl
held-writing (some (c ∷ s)) d = refl

held-appending :
    (name : Option (List ℕ)) (d : Disk) (text : List ℕ)
    → shown name d ≡ some text
    → held for_appending name d ≡ text
unfolding text_at_open
held-appending none d text e = cc
held-appending (some []) d text e = cc
held-appending (some (c ∷ s)) d text e = ap (text_at_open for_appending) e

RestKept-refl : (name : Option (List ℕ)) (d : Disk) → RestKept name d d
RestKept-refl none d = refl
RestKept-refl (some []) d = refl
RestKept-refl (some (c ∷ s)) d = (refl, λ other ne. refl)

-- The rows of a run, one call of `saveState` for each.
abbrev after : Logged → (Disk → Logged) → Logged
after (logged d) next = next d
after exit_failure next = exit_failure

abbrev pub save_rows : FileCalls → Option (List ℕ) → List FullStat → Disk → Logged
save_rows sys name [] d = logged d
save_rows sys name (f ∷ fs) d = after (save_state_file sys name f d) (save_rows sys name fs)

abbrev pub write_log : FileCalls → Option (List ℕ) → FullStat → List FullStat → Disk → Logged
write_log sys name f fs d = after (create_log_file sys name f d) (save_rows sys name fs)

module _ (sys : FileCalls) (ok : IsWorking sys) where
  -- One call that opens the log, writes a text and closes it.
  print_file :
      (name : Option (List ℕ)) (mode : Mode) (text : List ℕ) (d : Disk)
      → (e : Disk) × (print_and_close sys text (open_log sys name mode d) ≡ logged e)
        × (shown name e ≡ some (held mode name d ++ text))
        × RestKept name d e
  unfolding open_log print_and_close close_log print
  print_file none mode text d = (_, refl, refl, refl)
  print_file (some []) mode text d = (_, refl, refl, refl)
  print_file (some (c ∷ s)) mode text d =
      let name = c ∷ s in
      let a = set_file name (text_at_open mode (d.files name)) d in
      let at_name = set_file-same name (text_at_open mode (d.files name)) d in
      (
        print (file name) text a,
        ap (print_and_close sys text) (if-true _ (ok.opens mode name d))
            ∙ if-true _ (ok.closes name _),
        set_file-same name _ a ∙ ap (λ o. some (text_at_open for_appending o ++ text)) at_name,
        (refl, λ other ne. set_file-other name _ a other ne ∙ set_file-other name _ d other ne),
      )

  save_rows_lem :
      (name : Option (List ℕ)) (fs : List FullStat) (text : List ℕ) (d : Disk)
      → shown name d ≡ some text
      → (e : Disk) × (save_rows sys name fs d ≡ logged e)
        × (shown name e ≡ some (text ++ lines fs))
        × RestKept name d e
  unfolding save_state_file
  save_rows_lem name [] text d e =
      (d, refl, e ∙ ap (λ t. some t) (sym (append-nil text)), RestKept-refl name d)
  save_rows_lem name (f ∷ fs) text d e =
      let (a, ends, shows, rest) = print_file name for_appending (state_line f) d in
      let now = shows ∙ ap (λ t. some (t ++ state_line f)) (held-appending name d text e) in
      let (b, finish, last, others) = save_rows_lem name fs (text ++ state_line f) a now in
      (
        b,
        ap (λ r. after r (save_rows sys name fs)) ends ∙ finish,
        last ∙ ap (λ t. some t) (append_assoc text (state_line f) (lines fs)),
        RestKept-trans name d a b rest others,
      )

-- If every call of `fopen` and `fclose` succeeds, then with at most MAXGROUPS groups the calls of
-- createLog and saveState in a run leave its log in the file that is named, whatever that held, or
-- at the end of the standard output if there is no name, and change nothing else.
pub log_in_file :
    {c : Config} {k : ℕ} {s : System}
    → Reach c k s
    → c.n_groups ≤ max_groups
    → (sys : FileCalls) → IsWorking sys
    → (name : Option (List ℕ)) (d : Disk)
    → (fs : List FullStat) × (e : Disk) × (s.shared.log ≡ create_log (initial_status c) ++ lines fs)
      × (write_log sys name (initial_status c) fs d ≡ logged e)
      × (shown name e ≡ some (kept name d ++ s.shared.log))
      × RestKept name d e
unfolding create_log_file
log_in_file {c} r few sys ok name d =
    let (fs, text, _, _) = log_reads_back r few in
    let (a, ends, shows, rest) =
      print_file sys ok name for_writing (create_log (initial_status c)) d in
    let now = shows ∙ ap (λ t. some (t ++ create_log (initial_status c))) (held-writing name d) in
    let (e, finish, last, others) = save_rows_lem sys ok name fs _ a now in
    (
      fs,
      e,
      text,
      ap (λ r. after r (save_rows sys name fs)) ends ∙ finish,
      last
          ∙ ap (λ t. some t) (append_assoc (kept name d) (create_log (initial_status c)) (lines fs))
          ∙ ap (λ t. some (kept name d ++ t)) (sym text),
      RestKept-trans name d a e rest others,
    )
