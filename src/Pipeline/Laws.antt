-- ===== src/Pipeline/Laws.antt =====
-- What building and deleting a pipeline comes to, whatever GStreamer answers.
use gstd_1_x.Base.{
  ℕ, ◌+◌, ◌≡◌, ◌≢◌, ◌⊎◌, inl, inr, refl, Text, Bool, true, false, List, [], ◌∷◌, Option, none, some,
  Bool-cases, ltb,
}
use gstd_1_x.ReturnCode.{ReturnCode, eok}
use gstd_1_x.NodeList
use gstd_1_x.NodeList.{NodeList, append_child}
use gstd_1_x.NodeList.Laws.{IsValid}
use gstd_1_x.NodeList.Operations.{append_child-Adds}
use gstd_1_x.Gst.{Gst, IteratorResult, ok, resync, error, finished}
use gstd_1_x.State.{new_state}
use gstd_1_x.Pipeline.{
  Pipeline, own_name, max_iterator_resync, fill, kept, new_pipeline, filled, pipename, parsed,
  create, handled, built, build, in_pipeline,
}

pub kept-IsValid :
    (l : NodeList Text) (n : Text) (o : Option (NodeList Text))
    → IsValid own_name l
    → append_child own_name l n ≡ o
    → IsValid own_name (kept l o)
kept-IsValid l n none v e = v
kept-IsValid l n (some l') v e = (append_child-Adds own_name l l' n v e).0

pub fill-IsValid :
    (count : ℕ) (l : NodeList Text) (results : List IteratorResult)
    → IsValid own_name l
    → IsValid own_name (fill count l results)
unfolding fill
fill-IsValid count l [] v = v
fill-IsValid count l (ok n ∷ rest) v =
    let v' = kept-IsValid l n (append_child own_name l n) v refl in
    fill-IsValid 0 (kept l (append_child own_name l n)) rest v'
fill-IsValid count l (resync ∷ rest) v =
    let more = fill-IsValid (count + 1) l rest v in
    elim (Bool-cases (ltb max_iterator_resync (count + 1))) [ inl e ↦ rw e v | inr e ↦ rw e more ]
fill-IsValid count l (error ∷ rest) v = v
fill-IsValid count l (finished ∷ rest) v = v

module _ {W : Type 0} (gst : Gst W) where
  open gst use {Element}

  -- What a pipeline is once it is built: its element is what the description was parsed to, under
  -- the name of the object, and everything that a client reaches below it is there.
  pub record IsBuilt (self : Pipeline Element) (w w' : W) : Type 0 where
    pub parsed_element : Element
    pub parsed_world : W
    pub launched : gst.parse_launch self.description w ≡ (some parsed_element, parsed_world)
    pub element : Element
    pub is_it : element ≡ (in_pipeline gst parsed_element parsed_world).0
    pub is_named :
        w'
        ≡ gst.set_name element
            (pipename gst self.name)
            (in_pipeline gst parsed_element parsed_world).1
    pub has_element : self.pipeline ≡ some element
    pub has_state : self.state ≡ some (new_state element)
    pub has_event_handler : self.event_handler ≡ true
    pub has_bus : (self.pipeline_bus ≡ true) × (gst.has_bus element w' ≡ true)
    pub listed : NodeList Text
    pub has_elements : self.elements ≡ some listed
    pub listed-IsValid : IsValid own_name listed

  abbrev pub BuildOutcome : Text → Text → W → (ReturnCode × Pipeline Element) × W → Type 0
  BuildOutcome name description w ((code, self), w') =
      (self.name ≡ name)
      × (self.description ≡ description)
      × (self.refcount ≡ 0)
      × (((code ≡ eok) × IsBuilt self w w')
          ⊎ ((code ≢ eok) × (self.event_handler ≡ false) × (self.pipeline_bus ≡ false)))

  handled-outcome :
      (name description : Text) (w w' w₁ : W) (e₁ e : Element) (l : NodeList Text) (b : Bool)
      → gst.parse_launch description w ≡ (some e₁, w₁)
      → e ≡ (in_pipeline gst e₁ w₁).0
      → w' ≡ gst.set_name e (pipename gst name) (in_pipeline gst e₁ w₁).1
      → IsValid own_name l
      → gst.has_bus e w' ≡ b
      → BuildOutcome name description w (
        handled gst
            (record (new_pipeline gst name description) {
              pipeline = some e;
              state = some (new_state e);
              elements = some l;
            })
            b,
        w',
      )
  handled-outcome name description w w' w₁ e₁ e l true p q r v h = (
    refl,
    refl,
    refl,
    inl (
      refl,
      record {
        parsed_element = e₁;
        parsed_world = w₁;
        launched = p;
        element = e;
        is_it = q;
        is_named = r;
        has_element = refl;
        has_state = refl;
        has_event_handler = refl;
        has_bus = (refl, h);
        listed = l;
        has_elements = refl;
        listed-IsValid = v;
      },
    ),
  )
  handled-outcome name description w w' w₁ e₁ e l false p q r v h =
      (refl, refl, refl, inr (λ z. cc, refl, refl))

  filled-outcome :
      (name description : Text) (w w' w₁ : W) (e₁ e : Element) (o : Option (List IteratorResult))
      → gst.parse_launch description w ≡ (some e₁, w₁)
      → e ≡ (in_pipeline gst e₁ w₁).0
      → w' ≡ gst.set_name e (pipename gst name) (in_pipeline gst e₁ w₁).1
      → BuildOutcome name description w (
          built gst (
            filled gst
                (record (new_pipeline gst name description) {
                  pipeline = some e;
                  state = some (new_state e);
                })
                (some NodeList.empty)
                o,
            w',
          ))
  filled-outcome name description w w' w₁ e₁ e none p q r =
      (refl, refl, refl, inr (λ z. cc, refl, refl))
  filled-outcome name description w w' w₁ e₁ e (some results) p q r =
      let v = fill-IsValid 0 NodeList.empty results (record { counted = refl; distinct = tt }) in
      handled-outcome name description w w' w₁ e₁ e (fill 0 NodeList.empty results)
        (gst.has_bus e w') p q r v refl

  parsed-outcome :
      (name description : Text) (w : W) (r : Option Element × W)
      → gst.parse_launch description w ≡ r
      → BuildOutcome name description w
          (built gst (parsed gst (new_pipeline gst name description) r))
  parsed-outcome name description w (none, w') p = (refl, refl, refl, inr (λ z. cc, refl, refl))
  parsed-outcome name description w (some e₁, w₁) p =
      let (e, w₂) = in_pipeline gst e₁ w₁ in
      let w' = gst.set_name e (pipename gst name) w₂ in
      filled-outcome name description w w' w₁ e₁ e (gst.iterate_elements e w') p refl refl

  -- Building a new pipeline either succeeds, with everything in place, or fails with a code, and
  -- then nothing below the pipeline handles events or messages. Its name and its description are
  -- those that the client gave, and no client refers to it yet.
  pub build_outcome :
      (name description : Text) (w : W)
      → BuildOutcome name description w (build gst (new_pipeline gst name description) w)
  unfolding build create
  build_outcome name description w =
      parsed-outcome name description w (gst.parse_launch description w) refl
