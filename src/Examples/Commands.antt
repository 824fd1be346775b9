-- ===== src/Examples/Commands.antt =====
-- Lines of a client at the small server.
use gstd_1_x.Base.{codes, ◌≡◌, inr, refl, [], ◌∷◌, none, some, true, false, arith}
use gstd_1_x.Action.{done, fault}
use gstd_1_x.GLib.Reference.{reference}
use gstd_1_x.Session.{get_by_uri}
use gstd_1_x.Session.Uri.{Leads, here, down, get_by_uri-Leads}
use gstd_1_x.Parser.Requests.{run, literal, IsName-IsSegment}
use gstd_1_x.Parser.Dispatch.{parse_cmd}
use gstd_1_x.Parser.PipelineOrders
use gstd_1_x.Parser.ElementOrders
use gstd_1_x.Parser.ElementOrders.{emit_with, parse_cmd-element}
use gstd_1_x.Parser.EventOrders
use gstd_1_x.Parser.EventOrders.{seek, parse_cmd-event}
use gstd_1_x.Parser.LetterCase.{parse_cmd-letter_case}
use gstd_1_x.Parser.Wild.{parse_cmd-trailing_space}
use gstd_1_x.Examples.Server.{p0, Server, server, no_pipelines, read}

parse_cmd-element_example :
    parse_cmd reference server (codes "action_emit p0 src push 3 4")
    ≡ run reference server
        (ElementOrders.request (emit_with (codes "p0") (codes "src") (codes "push") (codes "3 4")))
parse_cmd-element_example =
    parse_cmd-element reference server
      (emit_with (codes "p0") (codes "src") (codes "push") (codes "3 4"))
      (literal _ refl, literal _ refl, literal _ refl, λ e. cc)

parse_cmd-event_example :
    parse_cmd reference server (codes "event_seek p0")
    ≡ run reference server (EventOrders.request reference (seek (codes "p0")))
parse_cmd-event_example = parse_cmd-event reference server (seek (codes "p0")) (literal _ refl)

parse_cmd-letter_case_example :
    parse_cmd reference server (codes "READ /pipelines")
    ≡ parse_cmd reference server (codes "read /pipelines")
parse_cmd-letter_case_example =
    parse_cmd-letter_case reference server (codes "READ") (codes "read") (codes "/pipelines") refl
      (omega arith) (omega arith)

parse_cmd-trailing_space_example :
    parse_cmd reference server (codes "delete ") no_pipelines ≡ (fault, no_pipelines)
parse_cmd-trailing_space_example =
    parse_cmd-trailing_space reference server (codes "delete") no_pipelines (omega arith)
      (inr (inr refl))

-- One pipeline, stopped.
abbrev one : Server
one = record { exists = true; playing = false; clients = 0 }

to_p0 :
    Leads reference server server.session (codes "pipelines" ∷ codes "p0" ∷ []) one (some p0) one
unfolding read
to_p0 = down refl (down refl here)

get_by_uri-Leads_example :
    get_by_uri server reference (codes "/pipelines/p0") (record { store = one; response = none })
    ≡ (done (some p0), record { store = one; response = none })
get_by_uri-Leads_example =
    get_by_uri-Leads reference server (codes "pipelines") (codes "p0" ∷ []) (some p0) one one none
      (IsName-IsSegment (literal _ refl)) (IsName-IsSegment (literal _ refl), tt) to_p0
