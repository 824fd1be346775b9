-- ===== src/Server/Reads.antt =====
-- What reads of a server write, and that every line keeps the server valid.
use gstd_1_x.Base.{◌≡◌, ◌≢◌, Text, codes, Option, none, some, Bool-cases, text_eq, inl, inr, ◌&&◌}
use gstd_1_x.ReturnCode.{ReturnCode, eok}
use gstd_1_x.Action
use gstd_1_x.GLib.{GLib}
use gstd_1_x.Gst.{Gst}
use gstd_1_x.NodeList
use gstd_1_x.Object
use gstd_1_x.Object.{unset}
use gstd_1_x.Object.Sound.{IsSound}
use gstd_1_x.Pipeline.{Pipeline, creator}
use gstd_1_x.Server.{
  Store, Place, Rest, session, pipelines, pipeline, state, other, pipe, read_child, property_reader,
  read, create, server, is_some,
}
use gstd_1_x.Server.Sound.{
  IsFound, IsSoundRest, Listed, mapped-IsFound, mapped-unset, create_keeps, read_keeps,
  update_keeps, delete_keeps, to_string_keeps, increment_keeps, decrement_keeps,
}

module _ {W : Type 0} (gst : Gst W) (rest : Rest gst.Element W) (h : IsSoundRest rest) where
  open gst use {Element}

  read_child-IsFound :
      (n : Text) (o : Option (Pipeline Element)) → IsFound (read_child gst rest n o)
  read_child-IsFound n none = (λ e. cc, λ e. cc)
  read_child-IsFound n (some p) = (λ e. cc, λ e. cc)

  property_reader-IsFound :
      (p n : Text) (w : W) (o : Option (Pipeline Element))
      → IsFound (property_reader gst rest p n w o)
  property_reader-IsFound p n w none = (λ e. cc, λ e. cc)
  property_reader-IsFound p n w (some self) =
      elim (Bool-cases (text_eq n (codes "state") && is_some self.state)) [
        | inl e ↦ rw e (λ z. cc, λ z. cc)
        | inr e ↦
            rw e (mapped-IsFound other (rest.read_pipeline self n w) (h.pipeline_found self n w))
      ]

  read-IsFound :
      (o : Place rest.Other) (n : Text) (s : Store Element W)
      → IsFound (read gst rest o (some n) s).0
  unfolding read
  read-IsFound (other o) n s =
      mapped-IsFound other (rest.read o (some n) s.world).0 (h.read_found o n s.world)
  read-IsFound (state p) n s = (λ e. cc, λ e. cc)
  read-IsFound session n s = elim (Bool-cases (text_eq n (codes "pipelines"))) [
    | inl e ↦ rw e (λ z. cc, λ z. cc)
    | inr e ↦ rw e (mapped-IsFound other (rest.read_session n s.world) (h.session_found n s.world))
  ]
  read-IsFound pipelines n s = elim (Bool-cases (text_eq (codes "count") n)) [
    | inl e ↦ rw e (λ z. cc, λ z. cc)
    | inr e ↦ rw e (read_child-IsFound n (pipe gst n s))
  ]
  read-IsFound (pipeline p) n s = property_reader-IsFound p n s.world (pipe gst p s)

  read_child-written :
      (n : Text) (o : Option (Pipeline Element)) → (read_child gst rest n o).1 ≢ unset
  read_child-written n none = λ e. cc
  read_child-written n (some p) = λ e. cc

  created_defined :
      (o : Place rest.Other) (n d : Option Text) (s : Store Element W)
      → Listed gst rest s
      → (create gst rest o n d s).0 ≡ eok
      → (read gst rest o n (create gst rest o n d s).1).0.1 ≢ unset
  unfolding create read NodeList.create creator
  created_defined (other o) n d s v e =
      mapped-unset other (rest.read o n (rest.create o n d s.world).1).0
        (h.created_found o n d s.world e)
  created_defined pipelines none d s v e = cc
  created_defined pipelines (some n) d s v e = elim (Bool-cases (text_eq (codes "count") n)) [
    | inl q ↦ rw q (λ z. cc)
    | inr q ↦ rw q (read_child-written n _)
  ]
  created_defined session n d s v e = cc
  created_defined (pipeline p) n d s v e = cc
  created_defined (state p) n d s v e = cc

  pub server-IsSound : IsSound (server gst rest) (Listed gst rest)
  server-IsSound = record {
    create_keeps = create_keeps gst rest;
    read_keeps = read_keeps gst rest;
    update_keeps = update_keeps gst rest;
    delete_keeps = delete_keeps gst rest;
    to_string_keeps = to_string_keeps gst rest;
    increment_keeps = increment_keeps gst rest;
    decrement_keeps = decrement_keeps gst rest;
    read_defined = λ o n s v. (read-IsFound o n s).0;
    created_defined = created_defined;
  }
