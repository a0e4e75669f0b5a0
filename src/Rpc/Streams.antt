-- ===== src/Rpc/Streams.antt =====
-- What the streaming methods send: ListMessages a prefix of the stored messages, Chat an echo of a prefix
-- of the notes.
use otus_app.Base.{
  ℕ, suc, ◌≡◌, refl, List, [], ◌∷◌, ◌++◌, Option, none, some, arith, inl, inr, Bool-cases, length,
  length-take, map, ltb, ◌&&◌, take-append-drop, drop,
}
use otus_app.Base.Int.{ℤ, pos, negsuc, ◌≤ℤ◌}
use mathlib.Core.List.{append-nil}
use otus_app.Text.{Text, codes}
use otus_app.Messaging.{Message, Store, ok, service_list}
use otus_app.Rpc.{
  Server, Status, send_all, limit_messages, list_messages, send_listed, stream_failed, chat,
  after_send,
}

-- A stream from the n-th Send on: everything is sent, or the k-th of the remaining Sends fails, all before
-- it succeeded, and the error is passed on.
module _ {A : Type 0} where
  pub data Sends (send : ℕ → Option ℕ) : ℕ → List A → List A → Option Status → Type 0 where
    all : (n : ℕ) → Sends send n [] [] none
    one :
        {n : ℕ} {m : A} {ms sent : List A} {reply : Option Status}
        → send n ≡ none
        → Sends send (suc n) ms sent reply
        → Sends send n (m ∷ ms) (m ∷ sent) reply
    broken :
        {n : ℕ} {m : A} {ms : List A} (e : ℕ)
        → send n ≡ some e
        → Sends send n (m ∷ ms) [] (some (stream_failed e))

after_send-Sends :
    {A : Type 0} (send : ℕ → Option ℕ) (n : ℕ) (m : A) (ms : List A) (o : Option ℕ)
    (rest : List A × Option Status)
    → send n ≡ o
    → Sends send (suc n) ms rest.0 rest.1
    → (let r = after_send o m rest in Sends send n (m ∷ ms) r.0 r.1)
after_send-Sends send n m ms none (sent, reply) e h = one e h
after_send-Sends send n m ms (some a) (sent, reply) e h = broken a e

pub send_all-Sends :
    (send : ℕ → Option ℕ) (n : ℕ) (ms : List Message)
    → (let r = send_all send n ms in Sends send n ms r.0 r.1)
unfolding send_all
send_all-Sends send n [] = all n
send_all-Sends send n (m ∷ ms) =
    after_send-Sends send n m ms (send n) (send_all send (suc n) ms) refl
      (send_all-Sends send (suc n) ms)

-- The limit of ListMessages leaves a first part of the list, no longer than the limit when it is
-- positive, and all of the list when it is zero or negative.
pub limit_messages_prefix :
    (limit : ℤ) (ms : List Message)
    → (rest : List Message) × (limit_messages limit ms ++ rest ≡ ms)
      × (pos 1 ≤ℤ limit → pos (length (limit_messages limit ms)) ≤ℤ limit)
      × (limit ≤ℤ pos 0 → rest ≡ [])
unfolding limit_messages
limit_messages_prefix (negsuc n) ms = ([], append-nil ms, λ h. omega arith, λ h. refl)
limit_messages_prefix (pos n) ms = elim (Bool-cases (ltb 0 n && ltb n (length ms))) [
  | inl b ↦ rw b (
    drop n ms,
    take-append-drop n ms,
    λ h. omega (arith, length-take n ms),
    λ h. absurd (ground arith),
  )
  | inr b ↦ rw b ([], append-nil ms, λ h. ground arith, λ h. refl)
]

-- If the store lists messages, ListMessages sends those within the limit in order; the first Send
-- that fails ends the stream with its error, and only then is something not sent. The counter of
-- created messages does not change.
pub list_messages-Sends :
    {W : Type 0} (store : Store W) (limit : ℤ) (send : ℕ → Option ℕ) (s : Server W)
    (ms : List Message) (w : W)
    → service_list store s.world ≡ (ok ms, w)
    → (let r = list_messages store limit send s in
        Sends send 0 (limit_messages limit ms) r.0.0 r.0.1
        × (r.1.world ≡ w)
        × (r.1.created ≡ s.created))
unfolding list_messages send_listed
list_messages-Sends store limit send s ms w h =
    rw h (send_all-Sends send 0 (limit_messages limit ms), refl, refl)

-- What Chat answers to a note.
abbrev pub echo : Text → Text
echo note = codes "эхо: " ++ note

-- Every note is answered in order until a Send fails.
pub chat-Sends :
    (send : ℕ → Option ℕ) (n : ℕ) (notes : List Text)
    → (let r = chat send n notes none in Sends send n (map echo notes) r.0 r.1)
unfolding chat
chat-Sends send n [] = all n
chat-Sends send n (note ∷ notes) =
    after_send-Sends send n (echo note) (map echo notes) (send n) (chat send (suc n) notes none)
      refl (chat-Sends send (suc n) notes)
