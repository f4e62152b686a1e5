-- ===== src/Console/Printing/Logged.antt =====
-- How often a member is logged when the members are printed.
use hydfs.Prelude.{
  ℕ, ◌+◌, ◌*◌, Text, codes, ◌≡◌, refl, ap, ◌∙◌, Option, none, some, List, [], ◌∷◌, ◌++◌, Bool, true,
  false, length, length-append, if◌then◌else◌, arith, ◌⊎◌, inl, inr,
}
use hydfs.Config.{Config, ProtocolType, gossip_protocol, ping_ack_protocol, other_protocol}
use hydfs.Member.{Member}
use hydfs.Console.{Console, log_info, console_printf, console_println, terminated, logged}
use hydfs.Console.Printing.{print, print_members, print_member, printed_if, gossip_line, ping_line}

-- the number of entries, if there is a log
abbrev pub entry_count : Option (List Text) → Option ℕ
entry_count none = none
entry_count (some entries) = some (length entries)

abbrev pub more : ℕ → Option ℕ → Option ℕ
more k none = none
more k (some n) = some (n + k)

more-more : (j k : ℕ) (n : Option ℕ) → more j (more k n) ≡ more (j + k) n
more-more j k none = refl
more-more j k (some n) = ap some (omega arith)

entry_count-logged :
    (text : Text) (e : Option (List Text)) → entry_count (logged text e) ≡ more 1 (entry_count e)
unfolding logged
entry_count-logged text none = refl
entry_count-logged text (some l) = ap some (length-append l (terminated text ∷ []))

entry_count-log_info :
    (text : Text) (c : Console)
    → entry_count (log_info true text c).entries ≡ more 1 (entry_count c.entries)
unfolding log_info
entry_count-log_info text c = entry_count-logged (codes "[INFO] " ++ text) c.entries

entry_count-console_printf :
    (text : Text) (c : Console)
    → entry_count (console_printf text c).entries ≡ more 1 (entry_count c.entries)
unfolding console_printf
entry_count-console_printf text c =
    entry_count-log_info text (record c { terminal = c.terminal ++ text })

entry_count-console_println :
    (text : Text) (c : Console)
    → entry_count (console_println text c).entries ≡ more 1 (entry_count c.entries)
unfolding console_println
entry_count-console_println text c =
    entry_count-log_info (text ++ 10 ∷ []) (record c { terminal = c.terminal ++ (text ++ 10 ∷ []) })

shown_twice :
    (line shown : Text) (c : Console)
    → entry_count (log_info true line (console_printf shown c)).entries
      ≡ more 2 (entry_count c.entries)
shown_twice line shown c =
    entry_count-log_info line (console_printf shown c)
    ∙ ap (more 1) (entry_count-console_printf shown c)
    ∙ more-more 1 1 (entry_count c.entries)

-- the protocols for which `Print` has a line
abbrev pub HasLine : ProtocolType → Type 0
HasLine p = (p ≡ gossip_protocol) ⊎ (p ≡ ping_ack_protocol)

abbrev times_logged : Bool → ℕ
times_logged on_console = if on_console then 2 else 1

entry_count-print_member :
    (p : ProtocolType) (on_console : Bool) (m : Member) (c : Console)
    → HasLine p
    → entry_count (print_member p on_console m c).entries
      ≡ more (times_logged on_console) (entry_count c.entries)
unfolding print_member printed_if
entry_count-print_member gossip_protocol true m c h =
    shown_twice (gossip_line (codes "| ") m) (gossip_line (codes " | ") m) c
entry_count-print_member gossip_protocol false m c h =
    entry_count-log_info (gossip_line (codes "| ") m) c
entry_count-print_member ping_ack_protocol true m c h = shown_twice (ping_line m) (ping_line m) c
entry_count-print_member ping_ack_protocol false m c h = entry_count-log_info (ping_line m) c
entry_count-print_member (other_protocol t) on_console m c h = absurd (unknown h)
  where
    unknown : HasLine (other_protocol t) → ⊥
    unknown (inl e) = cc
    unknown (inr e) = cc

nothing_more : (k : ℕ) (n : Option ℕ) → n ≡ more (k * 0) n
nothing_more k none = refl
nothing_more k (some n) = ap some (omega arith)

entry_count-print_members :
    (p : ProtocolType) (on_console : Bool) (nodes : List Member) (c : Console)
    → HasLine p
    → entry_count (print_members p on_console nodes c).entries
      ≡ more (times_logged on_console * length nodes) (entry_count c.entries)
unfolding print_members
entry_count-print_members p on_console [] c h =
    nothing_more (times_logged on_console) (entry_count c.entries)
entry_count-print_members p on_console (m ∷ nodes) c h =
    entry_count-print_members p on_console nodes (print_member p on_console m c) h
    ∙ ap (more (times_logged on_console * length nodes))
        (entry_count-print_member p on_console m c h)
    ∙ more-more (times_logged on_console * length nodes) (times_logged on_console)
        (entry_count c.entries)
    ∙ ap (λ k. more k (entry_count c.entries)) (omega arith)

-- Where members are printed under one of the two protocols, each of them is logged once; where they
-- are also shown on the terminal, by `list_mem_ids`, each of them is logged twice, and the two lines
-- around them once.
pub print_logs :
    (config : Config) (nodes : List Member) (c : Console)
    → HasLine config.protocol
    → (entry_count (print config false nodes c).entries
        ≡ more (length nodes) (entry_count c.entries))
      × (entry_count (print config true nodes c).entries
          ≡ more (2 * length nodes + 2) (entry_count c.entries))
unfolding print
print_logs config nodes c h =
    let top = codes "---- Membership List ----" in
    let bottom = codes "-------------------------" in
    let p = config.protocol in
    (
      entry_count-print_members p false nodes c h
          ∙ ap (λ k. more k (entry_count c.entries)) (omega arith),
      entry_count-console_println bottom (print_members p true nodes (console_println top c))
          ∙ ap (more 1) (entry_count-print_members p true nodes (console_println top c) h)
          ∙ ap (λ n. more 1 (more (2 * length nodes) n)) (entry_count-console_println top c)
          ∙ ap (more 1) (more-more (2 * length nodes) 1 (entry_count c.entries))
          ∙ more-more 1 (2 * length nodes + 1) (entry_count c.entries)
          ∙ ap (λ k. more k (entry_count c.entries)) (omega arith),
    )
