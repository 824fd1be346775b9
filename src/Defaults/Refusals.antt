-- ===== src/Defaults/Refusals.antt =====
-- The resources of the server that have no operations of their own do what gstd_object.c has for a new
-- object.
use gstd_1_x.Base.{◌≡◌, refl, Text, Option, some}
use gstd_1_x.Gst.{Gst}
use gstd_1_x.Server
use gstd_1_x.Server.{Store, Place, Rest, session, pipelines, pipeline, state}
use gstd_1_x.Defaults.{
  no_creator, no_reader, no_updater, no_deleter, new_fields, create_default, read_default,
  update_default, delete_default,
}

module _ {W : Type 0} (gst : Gst W) (rest : Rest gst.Element W) where
  -- A state is not created in and not deleted from, as the defaults of a new object say, and has
  -- nothing to read; a pipeline is not updated either.
  pub state_defaults :
      (p name value : Text) (n d : Option Text) (s : Store gst.Element W)
      (unref : Place rest.Other → Store gst.Element W → Store gst.Element W)
      → (create_default unref new_fields n d s ≡ some (Server.create gst rest (state p) n d s))
        × (read_default new_fields n s ≡ Server.read gst rest (state p) n s)
        × (delete_default {Child = Place rest.Other} new_fields name s
            ≡ Server.delete gst rest (state p) name s)
        × (update_default {Child = Place rest.Other} new_fields value s
            ≡ Server.update gst rest (pipeline p) value s)
  unfolding create_default read_default update_default delete_default no_creator no_reader
      no_updater no_deleter Server.create Server.read Server.update Server.delete
  state_defaults p name value n d s unref = (refl, refl, refl, refl)
