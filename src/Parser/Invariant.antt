-- ===== src/Parser/Invariant.antt =====
-- What every command keeps, and that the server never runs into what C leaves undefined.
use gstd_1_x.Base.{Text, ◌≢◌, map, to_lower}
use gstd_1_x.Action.{fault}
use gstd_1_x.GLib.{GLib}
use gstd_1_x.Object.{ObjectTree, Context}
use gstd_1_x.Object.Sound.{IsSound}
use gstd_1_x.Parser.Dispatch.{parse_cmd}
use gstd_1_x.Parser.SafeLines.{HasNoLooseState, bare_create, parse_cmd-Safe}
use gstd_1_x.Parser.Tokens.{EndsWell}

-- Let `P` be an invariant that every operation of the resources keeps, in a tree whose reads write
-- the pointers that they owe and where no state stands below a path to no object. Then a line that
-- is not empty, does not end in a space, and is not the word "pipeline_create" alone in any case of its
-- letters, keeps `P` whatever command it is, and does not run into undefined behaviour.
pub parse_cmd-keeps :
    (g : GLib) (t : ObjectTree) (P : t.Store → Type 0)
    → IsSound t P
    → HasNoLooseState g t P
    → (line : Text) → EndsWell line
    → map to_lower line ≢ bare_create
    → (c : Context t.Store) → P c.store
    → P (parse_cmd g t line c).1.store × ((parse_cmd g t line c).0 ≢ fault)
parse_cmd-keeps g t P sound no_loose line n h c p =
    let safe = parse_cmd-Safe g t P sound no_loose line n h in (safe.keeps c p, safe.defined c p)
