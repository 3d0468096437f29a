-- ===== src/System/Screens.antt =====
-- A living server and the screens of its clients: from the loop, the handlers and the tasks of the
-- dispatchers (chat-server/src) to what each client prints (chat-client/src/client.rs).
use mathlib.Core.List.{append-nil, Sublistᴰ}
use simple_chat_ddn.Common.{
  ℕ, ◌+◌, ◌≤◌, ◌≡◌, sym, ap, ◌∙◌, subst, ok, some, List, [], ◌∷◌, ◌++◌, length, get_elem?, map, All,
  All-Sublistᴰ, All-take, All-drop, All-get_elem?, Bool-cases, inl, inr, Bool, false,
}
use simple_chat_ddn.Common.Text.{Text, Bytes}
use simple_chat_ddn.Core.Bincode.{Codec, IsLawful}
use simple_chat_ddn.Core.Stream.{Reader, Writer, IsWriter}
use simple_chat_ddn.Core.Message.Client.{ClientMessage}
use simple_chat_ddn.Core.Message.Server.{ServerMessage, SharedServerMessage}
use simple_chat_ddn.Core.MessageCache.{StdHash, IsStdHash}
use simple_chat_ddn.Core.Protocol.{frame}
use simple_chat_ddn.Server.Dispatcher.{is_own, welcome}
use simple_chat_ddn.Server.Dispatcher.Delivery.{others, Delivered}
use simple_chat_ddn.Server.Run.{channel_capacity}
use simple_chat_ddn.Server.Runtime.{Runtime, IsRuntime}
use simple_chat_ddn.Server.Forwarder.{Receiving, IsReceiving, receiving}
use simple_chat_ddn.Server.Forwarder.Progress.{portion}
use simple_chat_ddn.Server.Forwarder.Faithful.{At}
use simple_chat_ddn.Server.Service.Channel.{channel_of}
use simple_chat_ddn.Server.Live
use simple_chat_ddn.Server.Live.{Task, Live}
use simple_chat_ddn.Server.Live.Faithful.{IsGood, run-IsGood}
use simple_chat_ddn.Client.Commands.{ChatClient}
use simple_chat_ddn.Client.Messages.{render}
use simple_chat_ddn.Client.Run.{Piece, run}
use simple_chat_ddn.Client.Run.Frames.{piece}
use simple_chat_ddn.System.Delivery.{flatten, AllShort, IsAlone, Delivered-Prints}

module _ {κ} (P : SharedServerMessage → Type κ) (owner : Text) where
  Foreign : SharedServerMessage → Type κ
  Foreign m = is_own owner m ≡ false → P m

  others-Foreign : (ms : List SharedServerMessage) → All P (others owner ms) → All Foreign ms
  unfolding others Foreign
  others-Foreign [] a = tt
  others-Foreign (m ∷ ms) a = elim (Bool-cases (is_own owner m)) [
    | inl own ↦ ((λ other. absurd (cc (own, other))), others-Foreign ms (rw own at a))
    | inr other ↦
        let both : P m × All P (others owner ms) = rw other at a in
        ((λ e. both.0), others-Foreign ms both.1)
  ]

  Foreign-others : (ms : List SharedServerMessage) → All Foreign ms → All P (others owner ms)
  unfolding others Foreign
  Foreign-others [] a = tt
  Foreign-others (m ∷ ms) a = elim (Bool-cases (is_own owner m)) [
    | inl own ↦ rw own (Foreign-others ms a.1)
    | inr other ↦ rw other (a.0 other, Foreign-others ms a.1)
  ]

module _ {V X W : Type 0} {rt : Runtime V} ⦃w : Writer W⦄ ⦃enc : Codec ClientMessage⦄
    ⦃codec : Codec ServerMessage⦄ (l : IsRuntime rt) (sent : V → Bytes) (trim : Text → Text) where
  -- What a client sees of what the channel has carried: it is sent the frame of the welcome, which
  -- joining reads, and then frames, and if its loop reads these one at a time, it prints a line for
  -- each message that its dispatcher has received and that is not its own.
  abbrev pub Shows : List SharedServerMessage → Task rt → ChatClient X W → Type 0
  Shows log t client =
      let from = l.start t.given.rec in
      let seen = portion from (l.start t.forwarder.rec) log in
      let owner = t.given.channel_owner in
      (hs : List SharedServerMessage) × (p : Bytes) × (fs : List Piece) × Sublistᴰ hs seen
      × (length log ≤ from + channel_capacity → hs ≡ seen)
      × (codec.encode_to_vec (welcome owner) ≡ ok p)
      × (sent t.forwarder.writer ≡ sent t.given.writer ++ (frame p ++ flatten fs))
      × (run trim (map piece fs) client
          ≡ (map (λ m. render m.shared) (others owner hs), false, client))

module _ {R V X W : Type 0} {rt : Runtime V} ⦃r : Reader R⦄ ⦃v : Writer V⦄ ⦃w : Writer W⦄
    ⦃enc : Codec ClientMessage⦄ ⦃codec : Codec ServerMessage⦄ ⦃h : StdHash⦄ {sent : V → Bytes}
    (lv : IsWriter v sent) (lh : IsStdHash h) (l : IsRuntime rt) {rc : Receiving rt}
    (lr : IsReceiving l rc) (law : IsLawful codec) (trim : Text → Text) (blocks : Text → Bool) where
  -- A living server and the screen of a client. However the loop, the handlers and the tasks of the
  -- dispatchers of a server run, also the shutdown, aborts and cancellations, and a look into the
  -- cache while another task puts something there: a client whose task waits for the channel has
  -- been sent the frame of the welcome, which joining takes from the stream, and then frames; and
  -- if the loop of the client then reads these one at a time, it prints one line for each message
  -- that the task has received and that is not the client's own, in order, and nothing else. What
  -- the task has received is what the channel has carried since the client joined up to the task's
  -- position, in order, without messages that it skipped, of which there are none as long as the
  -- channel has carried no more than its capacity since then. The cache is sound and the tasks are
  -- faithful at the start, as they are without tasks; the codec is lawful, the channel keeps its
  -- order, every frame that is forwarded fits in the 4096 bytes of the client's buffer, and no
  -- other bytes have the hash of a message that is forwarded.
  pub run-Shows :
      (es : List (Live.Event R V)) (s : Live R rt) (n : ℕ) (t : Task rt) (client : ChatClient X W)
      → let s' = Live.run l rc blocks es s in
        let log = l.sent (channel_of s'.service) in
        IsGood l sent lr lv lh blocks s
        → get_elem? s'.tasks n ≡ some t
        → t.forwarder.wait ≡ receiving
        → All IsAlone (others t.given.channel_owner log)
        → AllShort (others t.given.channel_owner log)
        → Shows l sent trim log t client
  run-Shows es s n t client good at waits alone shorts =
      let s' = Live.run l rc blocks es s in
      let log = l.sent (channel_of s'.service) in
      let owner = t.given.channel_owner in
      let from = l.start t.given.rec in
      let to = l.start t.forwarder.rec in
      let faithful =
        All-get_elem? _ n s'.tasks t at (run-IsGood l sent lr lv lh blocks es s good).1 in
      let x = subst (At l sent log t.given t.forwarder.rec t.forwarder.writer) waits faithful.at in
      let heard = x.foreign_ones ∙ append-nil x.ms in
      let heard_of : (P : SharedServerMessage → Type 0)
          → All P (others owner log)
          → All P (others owner x.hs) =
        λ P all. Foreign-others P owner x.hs (
          All-Sublistᴰ _ x.hs _ x.skims
            (All-drop _ from _ (All-take _ to log (others-Foreign P owner log all)))) in
      let (fs, flat, prints) =
        Delivered-Prints trim law (others owner x.hs) x.b client
          (subst (λ ms. Delivered ms x.b) (sym heard) x.delivered) (heard_of _ alone)
          (heard_of _ shorts) in
      (
        x.hs,
        x.p,
        fs,
        x.skims,
        x.whole,
        x.welcomed,
        x.out ∙ ap (λ b. sent t.given.writer ++ (frame x.p ++ b)) (sym flat),
        prints,
      )
