-- ===== src/Network/Budget.antt =====
-- `struct MessageBudget`: how many messages a peer may send in a window of ten seconds. An `Instant`
-- is a number of nanoseconds, and `elapsed` is 0 for one that lies ahead.
use paritr_node.Prelude.{
  ℕ, ◌+◌, ◌-◌, ◌/◌, ◌≤◌, ◌<◌, ◌≡◌, Bool, true, false, ◌&&◌, List, [], ◌∷◌, arith, leb, ltb, u32_mod,
  if◌then◌else◌, All, length, ◌∙◌, sum_by, Bool-cases, inl, inr, refl,
}
use paritr_node.Network.WireMessage.{WireMessage, block, transaction, workshare, template}

abbrev pub rate_window_seconds : ℕ
rate_window_seconds = 10

abbrev pub max_messages_per_window : ℕ
max_messages_per_window = 1_000

abbrev pub max_heavy_messages_per_window : ℕ
max_heavy_messages_per_window = 200

pub record MessageBudget : Type 0 where
  pub started : ℕ
  pub messages : ℕ
  pub heavy : ℕ

abbrev pub new : ℕ → MessageBudget
new now = record { started = now; messages = 0; heavy = 0 }

-- `u32::saturating_add`
abbrev pub saturating_add_u32 : ℕ → ℕ → ℕ
saturating_add_u32 a b = if ltb (a + b) u32_mod then a + b else u32_mod - 1

abbrev pub elapsed_seconds : ℕ → ℕ → ℕ
elapsed_seconds started now = (now - started) / 1_000_000_000

abbrev pub is_heavy : WireMessage → Bool
is_heavy (block _) = true
is_heavy (transaction _) = true
is_heavy (workshare _) = true
is_heavy (template _) = true
is_heavy _ = false

abbrev pub renewed : MessageBudget → ℕ → MessageBudget
renewed b now = if leb rate_window_seconds (elapsed_seconds b.started now) then new now else b

unfoldable pub charge : MessageBudget → WireMessage → MessageBudget × Bool
charge b message =
    let messages = saturating_add_u32 b.messages 1 in
    let heavy = if is_heavy message then saturating_add_u32 b.heavy 1 else b.heavy in
    (
      record b { messages = messages; heavy = heavy },
      leb messages max_messages_per_window && leb heavy max_heavy_messages_per_window,
    )

unfoldable pub allow : MessageBudget → ℕ → WireMessage → MessageBudget × Bool
unfolding charge
allow b now message = charge (renewed b now) message

-- The budget after a run of messages, each with the time at which it came.
unfoldable pub after : MessageBudget → List (ℕ × WireMessage) → MessageBudget
after b [] = b
after b ((now, message) ∷ rest) = after (allow b now message).0 rest

abbrev pub heaviness : WireMessage → ℕ
heaviness message = if is_heavy message then 1 else 0

abbrev pub heavies : List (ℕ × WireMessage) → ℕ
heavies events = sum_by (λ event. heaviness event.1) events

-- All of the run lies in the window that starts at `started`.
abbrev pub InWindow : ℕ → List (ℕ × WireMessage) → Type 0
InWindow started = All (λ event. elapsed_seconds started event.0 < rate_window_seconds)

allow_counts :
    (b : MessageBudget) (now : ℕ) (message : WireMessage)
    → elapsed_seconds b.started now < rate_window_seconds
    → b.messages + 1 < u32_mod
    → b.heavy + 1 < u32_mod
    → ((allow b now message).0.started ≡ b.started)
      × ((allow b now message).0.messages ≡ b.messages + 1)
      × ((allow b now message).0.heavy ≡ b.heavy + heaviness message)
      × ((allow b now message).1 ≡ (
          leb (b.messages + 1) max_messages_per_window
          && leb (b.heavy + heaviness message) max_heavy_messages_per_window))
unfolding allow
allow_counts b now message h small small' = elim (Bool-cases (is_heavy message)) [
  | inl heavy ↦ rw heavy (ground arith)
  | inr light ↦ rw light (ground arith)
]

after_counts :
    (b : MessageBudget) (events : List (ℕ × WireMessage))
    → InWindow b.started events
    → b.messages + length events < u32_mod
    → b.heavy + length events < u32_mod
    → ((after b events).started ≡ b.started)
      × ((after b events).messages ≡ b.messages + length events)
      × ((after b events).heavy ≡ b.heavy + heavies events)
unfolding after
after_counts b [] w small small' = (refl, omega arith, omega arith)
after_counts b ((now, message) ∷ rest) w small small' =
    let (started, messages, heavy) =
      after_counts (allow b now message).0 rest
        (rw (allow_counts b now message w.0 (omega arith) (omega arith)).0 w.1)
        (omega (arith, (allow_counts b now message w.0 (omega arith) (omega arith)).1))
        (ground (arith, allow_counts b now message w.0)) in
    (
      started ∙ (allow_counts b now message w.0 (omega arith) (omega arith)).0,
      omega (arith, messages, (allow_counts b now message w.0 (omega arith) (omega arith)).1),
      omega (arith, heavy, (allow_counts b now message w.0 (omega arith) (omega arith)).2),
    )

heavies-le : (events : List (ℕ × WireMessage)) → heavies events ≤ length events
heavies-le [] = omega arith
heavies-le ((now, message) ∷ rest) = ground (arith, heavies-le rest)

-- In a window of ten seconds, whatever came before in it, as long as the messages are fewer than 2^32,
-- a message passes exactly if it is among the first 1,000, and at most 200 of those so far are
-- blocks, transactions, workshares or templates.
pub allow_exact :
    (started now : ℕ) (events : List (ℕ × WireMessage)) (message : WireMessage)
    → InWindow started events
    → elapsed_seconds started now < rate_window_seconds
    → length events + 1 < u32_mod
    → (allow (after (new started) events) now message).1
      ≡ (leb (length events + 1) 1_000 && leb (heavies events + heaviness message) 200)
allow_exact started now events message w h small =
    let (same, messages, heavy) = after_counts (new started) events w (omega arith) (omega arith) in
    let counts =
      allow_counts (after (new started) events) now message (rw same h) (omega (arith, messages))
        (omega (arith, heavy, heavies-le events)) in
    counts.3 ∙ rw (messages, heavy) (ground arith)
