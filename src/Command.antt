-- ===== src/Command.antt =====
-- cli.go: the words of a command line, and the command that they name.
pub mod MultiAppend
use Prim.Native.String.{String}
use hydfs.Prelude.{
  ℕ, suc, ◌+◌, Text, codes, text_eq, not, Option, none, some, List, [], ◌∷◌, ◌++◌, Bool, true,
  false, ◌&&◌, ◌||◌, length, leb, ltb, ◌==◌, if◌then◌else◌, Dict, lookup,
}
use hydfs.Prelude.Decimal.{to_lower, has_prefix}

-- the ASCII characters that `strings.Fields` takes for spaces
abbrev pub is_space : ℕ → Bool
is_space c = (leb 9 c && leb c 13) || c == 32

abbrev close : Text → List Text → List Text
close [] rest = rest
close (c ∷ word) rest = (c ∷ word) ∷ rest

fields_from : Text → Text → List Text
fields_from word [] = close word []
fields_from word (c ∷ cs) =
    let next = close word (fields_from [] cs) in
    let longer = fields_from (word ++ c ∷ []) cs in if is_space c then next else longer

-- `strings.Fields(strings.TrimSpace(cmd))`: the spaces at the ends make no words
unfoldable pub fields : Text → List Text
unfolding fields_from
fields cmd = fields_from [] cmd

-- "vm names should start with vm (case-insensitive)"
unfoldable pub is_vm_name : Text → Bool
unfolding has_prefix to_lower
is_vm_name word = has_prefix (to_lower word) (codes "vm")

-- the loop of `parseMultiAppend`: the names in front, and the rest from the first other word on
pub split_names : List Text → List Text × List Text
unfolding is_vm_name
split_names [] = ([], [])
split_names (arg ∷ args) =
    let rest = split_names args in
    if is_vm_name arg then (arg ∷ rest.0, rest.1) else ([], arg ∷ args)

abbrev pub no_multi_append : Text × List Text × List Text
no_multi_append = ([], [], [])

-- No word but names leaves the split index at -1.
checked : Text → List Text → List Text → Text × List Text × List Text
checked name vm_names [] = no_multi_append
checked name vm_names (file ∷ files) =
    if not (length vm_names == length (file ∷ files))
    then no_multi_append
    else if length vm_names == 0
    then no_multi_append
    else (name, vm_names, file ∷ files)

parse_named : Text → List Text → Text × List Text × List Text
unfolding is_vm_name split_names checked
parse_named name rest =
    let parts = split_names rest in
    if is_vm_name name then no_multi_append else checked name (parts.0) (parts.1)

-- The name of the file, the VM names and the local files; all empty after an error.
unfoldable pub parse_multi_append : List Text → Text × List Text × List Text
unfolding parse_named
parse_multi_append [] = no_multi_append
parse_multi_append (name ∷ rest) =
    if ltb (length (name ∷ rest)) 3 then no_multi_append else parse_named name rest

-- What `handleCommand` calls; `malformed` prints the expected format and does nothing else.
pub data Command : Type 0 where
  nothing list_self leave display_suspects display_protocol liststore list_mem_ids : Command
  switch create get append : Text → Text → Command
  drop merge printmeta ls : Text → Command
  multiappend : Text → List Text → List Text → Command
  getfromreplica : Text → Text → Text → Command
  malformed unknown : Text → Command

abbrev one_arg : Text → (Text → Command) → List Text → Command
one_arg command f (a ∷ []) = f a
one_arg command f _ = malformed command

abbrev two_args : Text → (Text → Text → Command) → List Text → Command
two_args command f (a ∷ b ∷ []) = f a b
two_args command f _ = malformed command

abbrev three_args : Text → (Text → Text → Text → Command) → List Text → Command
three_args command f (a ∷ b ∷ d ∷ []) = f a b d
three_args command f _ = malformed command

abbrev multi_args : Text → List Text → Command
multi_args command args =
    let parts = parse_multi_append args in
    if ltb (suc (length args)) 4
    then malformed command
    else multiappend (parts.0) (parts.1) (parts.2)

abbrev is_word : Text → String → Bool
is_word command word = text_eq command (codes word)

dispatch : Text → List Text → Command
unfolding text_eq parse_multi_append
dispatch command args =
    if is_word command "list_self"
    then list_self
    else if is_word command "leave"
    then leave
    else if is_word command "display_suspects"
    then display_suspects
    else if is_word command "display_protocol"
    then display_protocol
    else if is_word command "switch"
    then two_args command switch args
    else if is_word command "drop"
    then one_arg command drop args
    else if is_word command "create"
    then two_args command create args
    else if is_word command "get"
    then two_args command get args
    else if is_word command "append"
    then two_args command append args
    else if is_word command "merge"
    then one_arg command merge args
    else if is_word command "multiappend"
    then multi_args command args
    else if is_word command "printmeta"
    then one_arg command printmeta args
    else if is_word command "ls"
    then one_arg command ls args
    else if is_word command "liststore"
    then liststore
    else if is_word command "list_mem_ids"
    then list_mem_ids
    else if is_word command "getfromreplica"
    then three_args command getfromreplica args
    else unknown command

by_words : List Text → Command
unfolding dispatch
by_words [] = nothing
by_words (command ∷ args) = dispatch command args

unfoldable pub handle_command : Text → Command
unfolding fields by_words
handle_command cmd = by_words (fields cmd)
