-- ===== src/Tests/Commanding.antt =====
-- Command lines, the switch command and IDs at concrete inputs.
use hydfs.Prelude.{codes, ◌≡◌, refl, [], ◌∷◌, ◌++◌}
use hydfs.Command.{handle_command, multiappend, is_vm_name}
use hydfs.Command.MultiAppend.{unwords, handle_command_multiappend}

handle_command_multiappend_example :
    handle_command
      (unwords (codes "multiappend" ∷ codes "f" ∷ ((codes "vm1" ∷ []) ++ (codes "a" ∷ []))))
    ≡ multiappend (codes "f") (codes "vm1" ∷ []) (codes "a" ∷ [])
unfolding is_vm_name
handle_command_multiappend_example =
    handle_command_multiappend (codes "f") (codes "vm1" ∷ []) (codes "a" ∷ [])
      (
        ((λ e. cc), (refl, tt)),
        (((λ e. cc), (refl, (refl, (refl, tt)))), (((λ e. cc), (refl, tt)), tt)),
      )
      refl (refl, tt) refl refl
