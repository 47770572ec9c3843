-- ===== src/Media/Plan/Backed.antt =====
-- What an available backend rests on: the listings that FFmpeg printed, and the plan's own options.
use ovayra.Prelude.{
  ℕ, ◌<◌, ◌≡◌, refl, ◌∙◌, subst, Bool, true, false, Option, none, some, List, [], ◌∷◌, Memᴰ, arith,
  if◌then◌else◌, ok, any, all, all-mem, All, All-mem, All-of_mem, split_whitespace, Text, bytes,
  text_eq,
}
use ovayra.Media.Backend.{video_toolbox, d3d11va_mf, nvenc_nvdec, vaapi, cpu, is_cpu, Backend}
use ovayra.Media.Inventory.{
  InventoryCommand, hwaccels_command, decoders_command, encoders_command, filters_command,
  InventoryOutput, Inventory, InventoryKind, hwaccel, decoder, encoder, filter, listing, has,
  from_command_outputs,
}
use ovayra.Media.Inventory.Collected.{field, Succeeded, from_command_outputs_sound}
use ovayra.Media.Plan.{HardwarePlan, required_components, is_available, self_test}

-- The command that lists a kind of component.
abbrev pub lister : InventoryKind → InventoryCommand
lister hwaccel = hwaccels_command
lister decoder = decoders_command
lister encoder = encoders_command
lister filter = filters_command

-- An output of the command that lists the component, which ran successfully and names it.
abbrev pub IsListed : List InventoryOutput → InventoryKind × Text → Type 0
IsListed outputs (kind, component) =
    (o : InventoryOutput) × Memᴰ o outputs
    × (o.command ≡ lister kind)
    × Succeeded o
    × (any (λ name. text_eq name component) (split_whitespace o.output) ≡ true)

listing-field : (kind : InventoryKind) (i : Inventory) → listing kind i ≡ field (lister kind) i
unfolding listing field
listing-field hwaccel i = refl
listing-field decoder i = refl
listing-field encoder i = refl
listing-field filter i = refl

has-IsListed :
    (outputs : List InventoryOutput) (i : Inventory) (r : InventoryKind × Text)
    → from_command_outputs outputs ≡ ok i
    → has i r.0 r.1 ≡ true
    → IsListed outputs r
unfolding has
has-IsListed outputs i (kind, component) made h =
    let (complete, source) = from_command_outputs_sound outputs made in
    let (o, m, command, text) = source (lister kind) in
    (
      o,
      m,
      command,
      All-mem Succeeded outputs complete.succeeded m,
      subst (λ t. any (λ name. text_eq name component) (split_whitespace t) ≡ true)
          (listing-field kind i ∙ text) h,
    )

-- A backend that is available over an inventory ran to a successful end and gave a frame, and each
-- component that it requires is named in the output of the command that lists that kind, a command
-- which had succeeded; the CPU is never available.
pub is_available-IsListed :
    (outputs : List InventoryOutput) (i : Inventory) (plan : HardwarePlan) (exited : Bool)
    (frames : ℕ)
    → from_command_outputs outputs ≡ ok i
    → is_available plan i exited frames ≡ true
    → (is_cpu plan.backend ≡ false)
      × (exited ≡ true)
      × (0 < frames)
      × All (IsListed outputs) (required_components plan.backend)
unfolding is_available
is_available-IsListed outputs i plan exited frames made h =
    let listed : all (λ (r : InventoryKind × Text). has i r.0 r.1)
          (required_components plan.backend)
        ≡ true =
      ground arith in
    (
      ground arith,
      ground arith,
      ground arith,
      All-of_mem (IsListed outputs) (required_components plan.backend) (λ r m.
          has-IsListed outputs i r made (
            all-mem (λ (r : InventoryKind × Text). has i r.0 r.1) (required_components plan.backend)
              listed m)),
    )

-- The value that follows an option.
abbrev pub value_of : Text → List Text → Option Text
value_of option [] = none
value_of option (a ∷ []) = none
value_of option (a ∷ b ∷ args) = if text_eq a option then some b else value_of option (b ∷ args)

-- Of a backend without a plan, that it is the CPU; of one with a plan, that its options name the
-- acceleration and the encoder which its availability requires.
abbrev pub Requires : Backend → Option HardwarePlan → Type 0
Requires b none = is_cpu b ≡ true
Requires b (some plan) =
    (plan.backend ≡ b)
    × ((accel : Text) × (value_of (bytes "-hwaccel") plan.args ≡ some accel)
        × Memᴰ (hwaccel, accel) (required_components b))
    × ((codec : Text) × (value_of (bytes "-c:v") plan.args ≡ some codec)
        × Memᴰ (encoder, codec) (required_components b))

third :
    {r a b : InventoryKind × Text} {rest : List (InventoryKind × Text)} → Memᴰ r (a ∷ b ∷ r ∷ rest)
third = Memᴰ.tail (Memᴰ.tail (Memᴰ.head refl))

-- Only the CPU has no self-test. The plan of every other backend is of that backend, decodes with
-- the acceleration and encodes with the encoder that its availability requires.
pub self_test-Requires : (b : Backend) → Requires b (self_test b)
unfolding self_test required_components text_eq bytes is_cpu
self_test-Requires video_toolbox =
    (refl, (bytes "videotoolbox", refl, Memᴰ.head refl), (bytes "h264_videotoolbox", refl, third))
self_test-Requires d3d11va_mf =
    (refl, (bytes "d3d11va", refl, Memᴰ.head refl), (bytes "h264_mf", refl, third))
self_test-Requires nvenc_nvdec =
    (refl, (bytes "cuda", refl, Memᴰ.head refl), (bytes "h264_nvenc", refl, third))
self_test-Requires vaapi =
    (refl, (bytes "vaapi", refl, Memᴰ.head refl), (bytes "h264_vaapi", refl, third))
self_test-Requires cpu = refl
