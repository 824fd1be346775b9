-- ===== src/Pipeline/Listed.antt =====
-- The list of pipelines of a server with its creator and its deleter: what `pipeline_create` and
-- `pipeline_delete` come to.
use mathlib.Core.Path.{subst}
use gstd_1_x.Base.{◌≡◌, ◌≢◌, ◌⊎◌, inl, inr, refl, Text, codes, Option, none, some}
use gstd_1_x.ReturnCode.{ReturnCode, eok}
use gstd_1_x.NodeList
use gstd_1_x.NodeList.{
  NodeList, append_child, created, appended, find_node, find_child, deleted, delete_found,
}
use gstd_1_x.NodeList.Laws.{IsValid}
use gstd_1_x.NodeList.Operations.{Adds, Removes, append_child-Adds, delete_outcome}
use gstd_1_x.Gst.{Gst, null, failure}
use gstd_1_x.State.{State, update}
use gstd_1_x.State.Laws.{update_outcome, UpdateOutcome}
use gstd_1_x.Pipeline.{
  Pipeline, new_pipeline, build, creator, dispose, stopped, delete_stopped, deleter,
}
use gstd_1_x.Pipeline.Laws.{IsBuilt, BuildOutcome, build_outcome}

module _ {W : Type 0} (gst : Gst W) where
  open gst use {Element}

  abbrev pub of_name : Pipeline Element → Text
  of_name self = self.name

  abbrev pub Added :
      Text
      → Text
      → NodeList (Pipeline Element)
      → W
      → (ReturnCode × NodeList (Pipeline Element)) × W
      → Type 0
  Added name description self w ((code, self'), w') =
      ((code ≡ eok)
        × ((p : Pipeline Element) × (p.name ≡ name)
            × (p.description ≡ description)
            × (p.refcount ≡ 0)
            × IsBuilt gst p w w'
            × Adds of_name self p self'))
      ⊎ ((code ≢ eok) × (self' ≡ self))

  appended-Added :
      (name description : Text) (self : NodeList (Pipeline Element)) (p : Pipeline Element)
      (w w' : W) (o : Option (NodeList (Pipeline Element)))
      → IsValid of_name self
      → p.name ≡ name
      → p.description ≡ description
      → p.refcount ≡ 0
      → IsBuilt gst p w w'
      → append_child of_name self p ≡ o
      → Added name description self w (appended of_name (dispose gst) self p w' o)
  appended-Added name description self p w w' none v n d r b e = inr (λ z. cc, refl)
  appended-Added name description self p w w' (some self') v n d r b e =
      let (valid, adds) = append_child-Adds of_name self self' p v e in
      inl (refl, (p, n, d, r, b, adds))

  created-Added :
      (name description : Text) (self : NodeList (Pipeline Element)) (w : W)
      (r : (ReturnCode × Pipeline Element) × W)
      → IsValid of_name self
      → BuildOutcome gst name description w r
      → Added name description self w
          (created of_name (dispose gst) self ((r.0.0, some r.0.1), r.1))
  created-Added name description self w ((eok, p), w') v (n, d, c, b) = elim b [
    | inl (q, b') ↦
        appended-Added name description self p w w' (append_child of_name self p) v n d c b' refl
    | inr b' ↦ absurd (b'.0 refl)
  ]
  created-Added name description self w ((_, p), w') v b = inr (λ z. cc, refl)

  -- Creating a pipeline of a name and a description in a valid list: if the code is EOK then a
  -- pipeline that is built from the description is found under the name, to which no client refers
  -- yet, the name was free, and every other name is as it was; on any other code the list is as it
  -- was.
  pub create_pipeline :
      (name description : Text) (self : NodeList (Pipeline Element)) (w : W)
      → IsValid of_name self
      → Added name description self w (
          NodeList.create of_name (creator gst) (dispose gst) self (some name) (some description) w)
  unfolding NodeList.create creator
  create_pipeline name description self w v =
      created-Added name description self w (build gst (new_pipeline gst name description) w) v
        (build_outcome gst name description w)

  -- GStreamer has been asked to stop the pipeline, and has not refused.
  abbrev pub Stops : Pipeline Element → W → Type 0
  Stops p w =
      (s : State Element) × (e : Element) × (p.state ≡ some s)
      × (s.target ≡ some e)
      × ((gst.set_state e null w).0 ≢ failure)

  stopped-Stops :
      (p : Pipeline Element) (s : State Element) (w : W) (r : (ReturnCode × State Element) × W)
      → p.state ≡ some s
      → UpdateOutcome gst s (codes "NULL") w r
      → (stopped gst p r).0 ≡ eok
      → Stops p w
  stopped-Stops p s w ((eok, s'), w') q (inl (c, (e, state, t, d, n, _, _))) h =
      let same : state ≡ null = cc (d, gst.deserialize_name) in
      (s, e, q, t, subst (λ x. (gst.set_state e x w).0 ≢ failure) same n)
  stopped-Stops p s w ((eok, s'), w') q (inr u) h = absurd (u.0 refl)
  stopped-Stops p s w ((_, s'), w') q u h = cc

  deleter-Stops :
      (p : Pipeline Element) (w : W) (o : Option (State Element))
      → p.state ≡ o
      → (delete_stopped gst p o w).0 ≡ eok
      → Stops p w
  deleter-Stops p w none q h = cc
  deleter-Stops p w (some s) q h =
      stopped-Stops p s w (update gst s (codes "NULL") w) q (update_outcome gst s (codes "NULL") w)
        h

  deleted-eok :
      (self : NodeList (Pipeline Element)) (name : Text) (p : Pipeline Element) (r : ReturnCode × W)
      → (deleted of_name self name r).0.0 ≡ eok
      → r.0 ≡ eok
  deleted-eok self name p (eok, w) h = refl
  deleted-eok self name p (_, w) h = h

  delete-Stops :
      (self : NodeList (Pipeline Element)) (name : Text) (w : W) (o : Option (Pipeline Element))
      → find_child of_name self name ≡ o
      → (delete_found of_name (deleter gst) self name w o).0.0 ≡ eok
      → (p : Pipeline Element) × (find_child of_name self name ≡ some p) × Stops p w
  unfolding deleter
  delete-Stops self name w none q h = cc
  delete-Stops self name w (some p) q h =
      let ends = deleted-eok self name p (deleter gst p w) h in
      (p, q, deleter-Stops p w p.state refl ends)

  abbrev pub Deleted :
      NodeList (Pipeline Element) → Text → W → ReturnCode × NodeList (Pipeline Element) → Type 0
  Deleted self name w (code, self') =
      ((code ≡ eok)
        × Removes of_name self name self'
        × ((p : Pipeline Element) × (find_child of_name self name ≡ some p) × Stops p w))
      ⊎ ((code ≢ eok) × (self' ≡ self))

  -- Deleting a pipeline of a valid list keeps it valid. If the code is EOK then the pipeline of the
  -- name was there and has been stopped, it has gone, and every other name is as it was; on any other
  -- code, as when GStreamer refuses to stop it, the list is as it was.
  pub delete_pipeline :
      (self : NodeList (Pipeline Element)) (name : Text) (w : W)
      → IsValid of_name self
      → let r = NodeList.delete of_name (deleter gst) self name w in
        IsValid of_name r.0.1 × Deleted self name w r.0
  unfolding NodeList.delete find_child
  delete_pipeline self name w v =
      let (valid, outcome) = delete_outcome of_name (deleter gst) self name w v in
      (
        valid,
        elim outcome [
          | inl (c, removes) ↦
              inl (c, removes, delete-Stops self name w (find_child of_name self name) refl c)
          | inr o ↦ inr o
        ],
      )
