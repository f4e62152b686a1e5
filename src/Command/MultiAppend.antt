-- ===== src/Command/MultiAppend.antt =====
-- The words of a line are found again, and the arguments of `multiappend` are split as documented.
use mathlib.Core.List.{append-nil, append_assoc}
use hydfs.Prelude.{
  suc, ◌+◌, ◌<◌, Text, codes, ◌≡◌, ◌≢◌, refl, sym, ap, ◌∙◌, List, [], ◌∷◌, ◌++◌, true, false,
  length, length-append, All, ltb, arith,
}
use hydfs.Command.{
  multiappend, is_space, fields, fields_from, close, is_vm_name, split_names, parse_multi_append,
  checked, parse_named, dispatch, by_words, handle_command,
}

-- A word has a character and no space.
abbrev pub IsWord : Text → Type 0
IsWord w = (w ≢ []) × All (λ c. is_space c ≡ false) w

-- words with one space between them
abbrev pub unwords : List Text → Text
unwords [] = []
unwords (w ∷ []) = w
unwords (w ∷ v ∷ ws) = w ++ 32 ∷ unwords (v ∷ ws)

close_ne : (w : Text) (rest : List Text) → w ≢ [] → close w rest ≡ w ∷ rest
close_ne [] rest h = absurd (h refl)
close_ne (c ∷ w) rest h = refl

fields_from-word :
    (part w rest : Text)
    → All (λ c. is_space c ≡ false) w
    → fields_from part (w ++ rest) ≡ fields_from (part ++ w) rest
unfolding fields_from
fields_from-word part [] rest h = rw append-nil refl
fields_from-word part (c ∷ w) rest h = rw (h.0) (
    fields_from-word (part ++ c ∷ []) w rest h.1
    ∙ ap (λ t. fields_from t rest) (append_assoc part (c ∷ []) w))

fields-unwords : (ws : List Text) → All IsWord ws → fields (unwords ws) ≡ ws
unfolding fields fields_from
fields-unwords [] h = refl
fields-unwords (w ∷ []) h =
    ap (fields_from []) (sym (append-nil w)) ∙ fields_from-word [] w [] h.0.1 ∙ close_ne w [] h.0.0
fields-unwords (w ∷ v ∷ ws) h =
    fields_from-word [] w (32 ∷ unwords (v ∷ ws)) h.0.1
    ∙ close_ne w (fields_from [] (unwords (v ∷ ws))) h.0.0
    ∙ ap (◌∷◌ w) (fields-unwords (v ∷ ws) h.1)

-- the first local file is no VM name; the others may be
abbrev pub StartsFiles : List Text → Type 0
StartsFiles [] = ⊥
StartsFiles (f ∷ fs) = is_vm_name f ≡ false

split_names-append :
    (vms files : List Text)
    → All (λ v. is_vm_name v ≡ true) vms
    → StartsFiles files
    → split_names (vms ++ files) ≡ (vms, files)
unfolding split_names
split_names-append [] [] a s = absurd s
split_names-append [] (f ∷ fs) a s = rw s refl
split_names-append (v ∷ vms) files a s = rw (a.0, split_names-append vms files a.1 s) refl

checked_ok :
    (name : Text) (vms files : List Text)
    → StartsFiles files
    → length vms ≡ length files
    → checked name vms files ≡ (name, vms, files)
unfolding checked
checked_ok name vms [] s e = absurd s
checked_ok name vms (f ∷ fs) s e = ground arith

parse_named_ok :
    (name : Text) (vms files : List Text)
    → is_vm_name name ≡ false
    → All (λ v. is_vm_name v ≡ true) vms
    → StartsFiles files
    → length vms ≡ length files
    → parse_named name (vms ++ files) ≡ (name, vms, files)
unfolding parse_named
parse_named_ok name vms files n a s e =
    rw (n, split_names-append vms files a s) (checked_ok name vms files s e)

files_pos : (files : List Text) → StartsFiles files → 0 < length files
files_pos [] s = absurd s
files_pos (f ∷ fs) s = omega arith

parse_multi_append_ok :
    (name : Text) (vms files : List Text)
    → is_vm_name name ≡ false
    → All (λ v. is_vm_name v ≡ true) vms
    → StartsFiles files
    → length vms ≡ length files
    → parse_multi_append (name ∷ (vms ++ files)) ≡ (name, vms, files)
unfolding parse_multi_append
parse_multi_append_ok name vms files n a s e =
    rw (enough (length-append vms files) e (files_pos files s))
      (parse_named_ok name vms files n a s e)
  where
    enough :
        length (vms ++ files) ≡ length vms + length files
        → length vms ≡ length files
        → 0 < length files
        → ltb (suc (length (vms ++ files))) 3 ≡ false
    enough p q r = ground arith

multiappend_dispatched :
    (name : Text) (vms files : List Text)
    → parse_multi_append (name ∷ (vms ++ files)) ≡ (name, vms, files)
    → ltb (suc (length (name ∷ (vms ++ files)))) 4 ≡ false
    → by_words (codes "multiappend" ∷ name ∷ (vms ++ files)) ≡ multiappend name vms files
unfolding by_words dispatch
multiappend_dispatched name vms files p q = rw (p, q) refl

command_word : All (λ c. is_space c ≡ false) (codes "multiappend")
command_word =
    (refl, (refl, (refl, (refl, (refl, (refl, (refl, (refl, (refl, (refl, (refl, tt)))))))))))

-- A `multiappend` line with a file name, VM names and as many local files, one space between the
-- words, calls for exactly that multi-append. The file name and the first local file do not begin
-- with "vm", in any case; the VM names do; and no word holds a space.
pub handle_command_multiappend :
    (name : Text) (vms files : List Text)
    → All IsWord (name ∷ (vms ++ files))
    → is_vm_name name ≡ false
    → All (λ v. is_vm_name v ≡ true) vms
    → StartsFiles files
    → length vms ≡ length files
    → handle_command (unwords (codes "multiappend" ∷ name ∷ (vms ++ files)))
      ≡ multiappend name vms files
unfolding handle_command
handle_command_multiappend name vms files w n a s e =
    ap by_words
      (fields-unwords (codes "multiappend" ∷ name ∷ (vms ++ files)) (((λ q. cc), command_word), w))
    ∙ multiappend_dispatched name vms files (parse_multi_append_ok name vms files n a s e)
        (enough (length-append vms files) e (files_pos files s))
  where
    enough :
        length (vms ++ files) ≡ length vms + length files
        → length vms ≡ length files
        → 0 < length files
        → ltb (suc (suc (length (vms ++ files)))) 4 ≡ false
    enough p q r = ground arith
