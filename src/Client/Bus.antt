-- ===== src/Client/Bus.antt =====
-- libgstc/c/libgstc.c: waiting for a message on the bus of a pipeline. The thread that waits runs
-- beside its caller only to call it back, and gstc_pipeline_bus_wait sleeps until then.
use gstd_1_x.Base.{ℤ, pos, negsuc, zero, Text, codes, Bool, true, false, Option, none, some, signed}
use gstd_1_x.GLib.{GLib}
use gstd_1_x.Object.{Out, at}
use gstd_1_x.Client
use gstd_1_x.Client.{
  Status, ok, null_argument, bus_timeout, thread_error, Call, pure, ◌>>=◌, ◌>>◌, Network,
}
use gstd_1_x.Client.Json.{Jansson, Reading, is_null}
use gstd_1_x.Client.Commands.{Client, cmd_read, cmd_update}
use gstd_1_x.Client.Socket.{c_string}
use gstd_1_x.Parser.Words.{of_pipeline, or_printed}

module _ {W : Type 0} (net : Network W) (j : Jansson) (client : Client) where
  -- What the callback of the waiting thread leaves behind: data->ret and data->message.
  abbrev heard : Text → Reading j Bool → Status × Text
  heard message (pos zero, some true) = (bus_timeout, message)
  heard message (status, _) = (status, message)

  -- gstc_pipeline_bus_wait_callback, on the string that the thread hands over
  unfoldable pub bus_wait_callback : Text → Status × Text
  unfolding is_null
  bus_wait_callback message = heard message (is_null j message (codes "response"))

  -- The thread does not look at the status of its read, and hands the response over as it is.
  abbrev called_back : Status × Out Text → Call W (Status × Text)
  called_back (status, at s) w = pure (bus_wait_callback (c_string s)) w
  called_back (status, _) w = (Client.undefined, w)

  -- gstc_bus_thread, with the callback of gstc_pipeline_bus_wait
  unfoldable pub bus_thread : Text → Call W (Status × Text)
  unfolding cmd_read bus_wait_callback
  bus_thread pipeline_name = do
    r ← cmd_read net j client (of_pipeline pipeline_name (codes "/bus/message")) (negsuc 0)
    called_back r

  -- gstc_pipeline_bus_wait_async, up to the start of the thread: the filter and the timeout are set,
  -- and the statuses are not looked at.
  unfoldable pub bus_prepare : GLib → Option Text → Option Text → ℤ → Call W Unit
  unfolding cmd_update
  bus_prepare g pipeline_name message_name timeout = do
    let p = or_printed g.printf_null pipeline_name
    filtered ← cmd_update net j client (of_pipeline p (codes "/bus/types")) message_name
    limited ← cmd_update net j client (of_pipeline p (codes "/bus/timeout")) (some (signed timeout))
    pure tt

  abbrev waited : Text → Bool → Call W (Status × Option Text)
  waited p true = do r ← bus_thread p; pure (r.0, some r.1)
  waited p false = pure (thread_error, none)

  -- gstc_pipeline_bus_wait, where the thread starts if the flag says so (gstc_thread_new)
  unfoldable pub bus_wait :
      GLib → Bool → Option Text → Option Text → ℤ → Call W (Status × Option Text)
  unfolding bus_thread bus_prepare
  bus_wait g starts pipeline_name message_name timeout = do
    bus_prepare g pipeline_name message_name timeout
    waited (or_printed g.printf_null pipeline_name) starts
