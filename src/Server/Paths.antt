-- ===== src/Server/Paths.antt =====
-- Where the path of a pipeline leads at a server.
use gstd_1_x.Base.{
  ◌≡◌, refl, Text, codes, [], ◌∷◌, Option, none, some, Option-cases, Bool-cases, text_eq,
  if◌then◌else◌, inl, inr,
}
use gstd_1_x.ReturnCode.{bad_command}
use gstd_1_x.Action.{Exit, done, stop}
use gstd_1_x.GLib.{GLib}
use gstd_1_x.Gst.{Gst}
use gstd_1_x.Object.{Context, object_read}
use gstd_1_x.Session.{walk, child_of, get_by_uri}
use gstd_1_x.Session.Uri.{IsSegment, path, get_by_uri-path}
use gstd_1_x.Parser.Requests.{literal, IsName-IsSegment}
use gstd_1_x.Pipeline.{Pipeline}
use gstd_1_x.Server
use gstd_1_x.Server.{Store, Place, Rest, pipeline, other, pipe, server, read}

module _ (g : GLib) {W : Type 0} (gst : Gst W) (rest : Rest gst.Element W) where
  open gst use {Element}

  abbrev pub found_or_not : Text → Option (Pipeline Element) → Exit {0} (Option (Place rest.Other))
  found_or_not name none = stop bad_command
  found_or_not name (some p) = done (some (pipeline name))

  read_path :
      (name : Text) (c : Context (Store Element W))
      → IsSegment name
      → walk (server gst rest) (some Server.session) (codes "pipelines" ∷ name ∷ []) c ≡ (
        if text_eq (codes "count") name
            then done (some (other rest.count_property))
            else found_or_not name (pipe gst name c.store),
        c,
      )
  unfolding walk child_of object_read read
  read_path [] c h = absurd (h.nonempty refl)
  read_path (k ∷ n) c h = elim (Bool-cases (text_eq (codes "count") (k ∷ n))) [
    | inl e ↦ rw e refl
    | inr e ↦ elim (Option-cases (pipe gst (k ∷ n) c.store)) [
      | inl q ↦ rw e (rw q refl)
      | inr (p, q) ↦ rw e (rw q refl)
    ]
  ]

  -- The path "/pipelines/<name>" leads to the pipeline of the name, or is a bad command if there is
  -- none; but of the name "count" it leads to the number of pipelines, whether there is a pipeline of
  -- that name or not. Nothing is changed on the way.
  pub get_by_uri-pipeline :
      (name : Text) (c : Context (Store Element W))
      → IsSegment name
      → get_by_uri (server gst rest) g (path (codes "pipelines" ∷ name ∷ [])) c ≡ (
        if text_eq (codes "count") name
            then done (some (other rest.count_property))
            else found_or_not name (pipe gst name c.store),
        c,
      )
  get_by_uri-pipeline name c h =
      rw
        (get_by_uri-path g (server gst rest) (codes "pipelines") (name ∷ [])
          (IsName-IsSegment (literal _ refl)) (h, tt))
        (read_path name c h)
