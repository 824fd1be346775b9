-- ===== src/Server/Sound.antt =====
-- A server is a sound tree of resources for the invariant that its list of pipelines is a map with
-- its size.
use gstd_1_x.Base.{◌≡◌, ◌≢◌, refl, Text, Option, none, some, arith}
use gstd_1_x.ReturnCode.{ReturnCode, eok}
use gstd_1_x.Gst.{Gst}
use gstd_1_x.NodeList.Laws.{IsValid, length-change, Distinct-change}
use gstd_1_x.NodeList.Operations.{create_outcome, delete_outcome}
use gstd_1_x.Object
use gstd_1_x.Object.{Out, unset, at}
use gstd_1_x.State.{State}
use gstd_1_x.Pipeline
use gstd_1_x.Pipeline.{Pipeline, creator, deleter, dispose}
use gstd_1_x.Server.{
  Store, Place, Rest, session, pipelines, pipeline, state, other, mapped, pipe_name, state_of,
  with_pipe, read, create, update, update_state, delete, to_string, print_state, increment_at,
  decrement_at,
}

-- A read that succeeds has written a resource.
abbrev pub IsFound : {A : Type 0} → ReturnCode × Out A → Type 0
IsFound r = (r ≢ (eok, unset)) × (r ≢ (eok, Object.null))

-- What the rest of the tree owes.
pub record IsSoundRest {Element W : Type 0} (rest : Rest Element W) : Type 0 where
  pub session_found : (n : Text) (w : W) → IsFound (rest.read_session n w)
  pub pipeline_found :
      (p : Pipeline Element) (n : Text) (w : W) → IsFound (rest.read_pipeline p n w)
  pub read_found : (o : rest.Other) (n : Text) (w : W) → IsFound (rest.read o (some n) w).0
  pub created_found :
      (o : rest.Other) (n d : Option Text) (w : W)
      → (rest.create o n d w).0 ≡ eok
      → (rest.read o n (rest.create o n d w).1).0.1 ≢ unset

pub mapped-IsFound :
    {A B : Type 0} (f : A → B) (r : ReturnCode × Out A) → IsFound r → IsFound (mapped f r)
mapped-IsFound f (code, unset) h = (λ e. h.0 (cc e), λ e. cc)
mapped-IsFound f (code, Object.null) h = (λ e. cc, λ e. h.1 (cc e))
mapped-IsFound f (code, at x) h = (λ e. cc, λ e. cc)

pub mapped-unset :
    {A B : Type 0} (f : A → B) (r : ReturnCode × Out A) → r.1 ≢ unset → (mapped f r).1 ≢ unset
mapped-unset f (code, unset) h = absurd (h refl)
mapped-unset f (code, Object.null) h = λ e. cc
mapped-unset f (code, at x) h = λ e. cc

module _ {W : Type 0} (gst : Gst W) (rest : Rest gst.Element W) where
  open gst use {Element}

  abbrev pub Listed : Store Element W → Type 0
  Listed s = IsValid (pipe_name gst) s.pipelines

  with_pipe-Listed :
      (n : Text) (f : Pipeline Element → Pipeline Element) (s : Store Element W)
      → ((p : Pipeline Element) → pipe_name gst (f p) ≡ pipe_name gst p)
      → Listed s
      → Listed (with_pipe gst n f s)
  with_pipe-Listed n f s k h = record {
    counted = rw (length-change (pipe_name gst) f s.pipelines.nodes n) h.counted;
    distinct = Distinct-change (pipe_name gst) f s.pipelines.nodes n k h.distinct;
  }

  pub create_keeps :
      (o : Place rest.Other) (n d : Option Text) (s : Store Element W)
      → Listed s
      → Listed (create gst rest o n d s).1
  unfolding create
  create_keeps pipelines n d s h =
      (create_outcome (pipe_name gst) (creator gst) (dispose gst) s.pipelines n d s.world h).0
  create_keeps _ n d s h = h

  pub delete_keeps :
      (o : Place rest.Other) (n : Text) (s : Store Element W)
      → Listed s
      → Listed (delete gst rest o n s).1
  unfolding delete
  delete_keeps pipelines n s h =
      (delete_outcome (pipe_name gst) (deleter gst) s.pipelines n s.world h).0
  delete_keeps _ n s h = h

  update_state-keeps :
      (p v : Text) (s : Store Element W) (o : Option (State Element))
      → Listed s
      → Listed (update_state gst rest p v s o).1
  update_state-keeps p v s none h = h
  update_state-keeps p v s (some st) h = with_pipe-Listed p _ s (λ q. refl) h

  pub update_keeps :
      (o : Place rest.Other) (v : Text) (s : Store Element W)
      → Listed s
      → Listed (update gst rest o v s).1
  unfolding update
  update_keeps (state p) v s h = update_state-keeps p v s (state_of gst p s) h
  update_keeps _ v s h = h

  print_state-keeps :
      (p : Text) (s : Store Element W) (o : Option (State Element))
      → Listed s
      → Listed (print_state gst rest p s o).1
  print_state-keeps p s none h = h
  print_state-keeps p s (some st) h = with_pipe-Listed p _ s (λ q. refl) h

  pub to_string_keeps :
      (o : Place rest.Other) (s : Store Element W) → Listed s → Listed (to_string gst rest o s).1
  unfolding to_string
  to_string_keeps (state p) s h = print_state-keeps p s (state_of gst p s) h
  to_string_keeps _ s h = h

  pub read_keeps :
      (o : Place rest.Other) (n : Option Text) (s : Store Element W)
      → Listed s
      → Listed (read gst rest o n s).1
  unfolding read
  read_keeps (other o) n s h = h
  read_keeps (state p) n s h = h
  read_keeps session none s h = h
  read_keeps pipelines none s h = h
  read_keeps (pipeline p) none s h = h
  read_keeps session (some n) s h = h
  read_keeps pipelines (some n) s h = h
  read_keeps (pipeline p) (some n) s h = h

  pub increment_keeps :
      (o : Place rest.Other) (s : Store Element W) → Listed s → Listed (increment_at gst rest o s).1
  unfolding Pipeline.increment_refcount
  increment_keeps (pipeline p) s h = with_pipe-Listed p Pipeline.increment_refcount s (λ q. refl) h
  increment_keeps (state p) s h = with_pipe-Listed p _ s (λ q. refl) h
  increment_keeps _ s h = h

  decrement-name :
      (p : Pipeline Element) → pipe_name gst (Pipeline.decrement_refcount p) ≡ pipe_name gst p
  unfolding Pipeline.decrement_refcount
  decrement-name p = ground arith

  pub decrement_keeps :
      (o : Place rest.Other) (s : Store Element W) → Listed s → Listed (decrement_at gst rest o s).1
  decrement_keeps (pipeline p) s h =
      with_pipe-Listed p Pipeline.decrement_refcount s decrement-name h
  decrement_keeps (state p) s h = with_pipe-Listed p _ s (λ q. refl) h
  decrement_keeps _ s h = h
