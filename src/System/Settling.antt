-- ===== src/System/Settling.antt =====
-- What is said reaches every screen: a living server whose tasks are left to run.
use mathlib.Core.List.{append-nil}
use simple_chat_ddn.Common.{
  ℕ, ◌+◌, ◌-◌, ◌*◌, ◌≤◌, ◌≡◌, refl, drop, take, take-append, replicate, sym, ap, ◌∙◌, subst, ok,
  some, List, [], ◌++◌, length, get_elem?, map, All, All-get_elem?, Bool, false,
}
use simple_chat_ddn.Common.Text.{Text, Bytes}
use simple_chat_ddn.Core.Bincode.{Codec, IsLawful}
use simple_chat_ddn.Core.Stream.{Reader, Writer, IsWriter, IsReliable}
use simple_chat_ddn.Core.Message.Client.{ClientMessage}
use simple_chat_ddn.Core.Message.Server.{ServerMessage, SharedServerMessage}
use simple_chat_ddn.Core.MessageCache.{StdHash, IsStdHash}
use simple_chat_ddn.Core.Protocol.{frame}
use simple_chat_ddn.Server.Dispatcher.{welcome}
use simple_chat_ddn.Server.Dispatcher.Delivery.{others}
use simple_chat_ddn.Server.Run.{channel_capacity}
use simple_chat_ddn.Server.Runtime.{Runtime, IsRuntime}
use simple_chat_ddn.Server.Forwarder.{Receiving, IsReceiving, receiving}
use simple_chat_ddn.Server.Forwarder.Progress.{portion}
use simple_chat_ddn.Server.Service.Channel.{channel_of}
use simple_chat_ddn.Server.Live
use simple_chat_ddn.Server.Live.{Task, Live, polled}
use simple_chat_ddn.Server.Live.Faithful.{IsGood}
use simple_chat_ddn.Client.Commands.{ChatClient}
use simple_chat_ddn.Client.Messages.{render}
use simple_chat_ddn.Client.Run.{Piece, run}
use simple_chat_ddn.Client.Run.Frames.{piece}
use simple_chat_ddn.System.Delivery.{flatten, AllShort, IsAlone}
use simple_chat_ddn.Server.Forwarder.Alone.{polls}
use simple_chat_ddn.Server.Forwarder.CatchingUp.{IsReady, IsEncodable, polls-CaughtUp}
use simple_chat_ddn.Server.Live.Polling.{run-polls}
use simple_chat_ddn.System.Screens.{run-Shows}

portion_to_end :
    {A : Type 0} → (from : ℕ) (log : List A) → portion from (length log) log ≡ drop from log
portion_to_end from log =
    ap (drop from) (ap (take (length log)) (sym (append-nil log)) ∙ take-append log [])

module _ {V X W : Type 0} {rt : Runtime V} ⦃w : Writer W⦄ ⦃enc : Codec ClientMessage⦄
    ⦃codec : Codec ServerMessage⦄ (l : IsRuntime rt) (sent : V → Bytes) (trim : Text → Text) where
  -- What a client sees that has seen all: after the welcome, all that the channel has carried since
  -- it joined and that is not its own.
  abbrev pub ShowsAll : List SharedServerMessage → Task rt → ChatClient X W → Type 0
  ShowsAll log t client =
      let owner = t.given.channel_owner in
      let all = others owner (drop (l.start t.given.rec) log) in
      (p : Bytes) × (fs : List Piece) × (codec.encode_to_vec (welcome owner) ≡ ok p)
      × (sent t.forwarder.writer ≡ sent t.given.writer ++ (frame p ++ flatten fs))
      × (run trim (map piece fs) client ≡ (map (λ m. render m.shared) all, false, client))

module _ {R V X W : Type 0} {rt : Runtime V} ⦃r : Reader R⦄ ⦃v : Writer V⦄ ⦃w : Writer W⦄
    ⦃enc : Codec ClientMessage⦄ ⦃codec : Codec ServerMessage⦄ ⦃h : StdHash⦄ {sent : V → Bytes}
    (lv : IsWriter v sent) (lh : IsStdHash h) (l : IsRuntime rt) {rc : Receiving rt}
    (lr : IsReceiving l rc) (ready : IsReady l rc) (reliable : IsReliable v) (law : IsLawful codec)
    (trim : Text → Text) (blocks : Text → Bool) where
  -- What is said reaches the screen of a client whose task is left to run. In a server as any run
  -- leaves it, take a client whose task waits for the channel and has not been cancelled. If that
  -- task alone runs on, then after four turns for each message that it is behind, at most, the
  -- client has been sent the frame of the welcome, which joining takes from the stream, and then
  -- frames; and if the loop of the client then reads these one at a time, it prints one line for
  -- each message that the channel has carried since the client joined and that is not the client's
  -- own, in order, and nothing else. The cache is sound and the tasks are faithful, which every run
  -- keeps; writes succeed, the messages have payloads, a receiver that is behind gets something,
  -- and the channel has carried no more than its capacity since the client joined; the codec is
  -- lawful, the channel keeps its order, every frame that is forwarded fits in the 4096 bytes of
  -- the client's buffer, and no other bytes have the hash of a message that is forwarded.
  pub run-ShowsAll :
      (s : Live R rt) (n : ℕ) (t : Task rt) (client : ChatClient X W)
      → let log = l.sent (channel_of s.service) in
        let from = l.start t.given.rec in
        let owner = t.given.channel_owner in
        IsGood l sent lr lv lh blocks s
        → get_elem? s.tasks n ≡ some t
        → t.forwarder.wait ≡ receiving
        → t.cancelled ≡ false
        → All IsEncodable log
        → All IsAlone (others owner log)
        → AllShort (others owner log)
        → length log ≤ from + channel_capacity
        → (k : ℕ) × (t' : Task rt) × (k ≤ 4 * (length log - l.start t.forwarder.rec))
          × (get_elem? (Live.run l rc blocks (replicate k (polled n)) s).tasks n ≡ some t')
          × (t'.given ≡ t.given)
          × ShowsAll l sent trim log t' client
  run-ShowsAll s n t client good at waits live encodable alone shorts few =
      let log = l.sent (channel_of s.service) in
      let owner = t.given.channel_owner in
      let from = l.start t.given.rec in
      let pool = s.service.server.broadcast_pool in
      let cache = s.service.server.cache in
      let faithful = All-get_elem? _ n s.tasks t at good.1 in
      let (k, (quick, waits', level)) =
        polls-CaughtUp l lr ready reliable pool.broadcaster t.forwarder cache waits faithful.within
          encodable in
      let (at', same) = run-polls l rc blocks n k s t at live in
      let t' : Task rt = record t {
        forwarder = (polls rc pool.broadcaster k t.forwarder cache).0;
      } in
      let kept = ap (λ p. l.sent p.broadcaster) same in
      let (hs, p, fs, _, whole, welcomed, out, prints) =
        run-Shows lv lh l lr law trim blocks (replicate k (polled n)) s n t' client good at' waits'
          (subst (λ ms. All IsAlone (others owner ms)) (sym kept) alone)
          (subst (λ ms. AllShort (others owner ms)) (sym kept) shorts) in
      let heard : hs ≡ drop from log =
        whole (subst (λ ms. length ms ≤ from + channel_capacity) (sym kept) few)
        ∙ ap (portion from (l.start t'.forwarder.rec)) kept
        ∙ ap (λ i. portion from i log) level
        ∙ portion_to_end from log in
      let lines = ap (λ ms. (map (λ m. render m.shared) (others owner ms), false, client)) heard in
      (k, t', quick, at', refl, (p, fs, welcomed, out, prints ∙ lines))
