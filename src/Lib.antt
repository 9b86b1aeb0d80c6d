-- ===== src/Lib.antt =====
-- ldktela: screen sharing for Discord voice channels. A server (crates/api, crates/db, crates/server)
-- keeps sessions of desktop clients, mirrors Discord's permissions through a bot (crates/bot), grants
-- LiveKit tokens, and follows who shares through LiveKit's webhooks; a desktop application (desktop)
-- captures and publishes. This library models the state and the decisions of the server and the bot, and
-- the desktop application's own computations.
--
-- How the parts interact. The bot writes the replica; a request for a room token reads from it what the
-- member may do, which permission resolution decides, and claims slots of the publish ledger. LiveKit's
-- webhooks write presence and share sessions, give slots back, and publish events through the hub to
-- the gateway sessions of the people in the room; snapshots of the rooms tell the bot whose nickname to
-- tag. A client pairs with a code that the bot issued, holds its session by refresh tokens, and
-- identifies or resumes over a gateway connection. The desktop application puts screens and cameras on
-- the air.
--
-- Files and code.
--   Domain/Discord      crates/domain/src/discord.rs: `resolve` and the questions asked of its answer.
--                       Resolution, Bitwise: the meaning of each bit; Words: 64 bits; Order: the order
--                       of overwrites; Access: the three questions.
--   Replica             crates/api/src/discord/replica.rs: `State` and its methods. Index, Reach: the
--                       index of channels; Authority: what a write does to the answers; Grace:
--                       `staleness`.
--   Rooms               crates/api/src/livekit.rs: the ledger of publish grants. Ledger, Releases: what
--                       each call does to the holders; Ceilings, Claims: the bounds and the answers.
--                       Names, Identities: `room_name`, `publisher_identity` and what is read of them.
--   Presence            crates/db/src/repo/presence.rs and crates/db/src/repo/sessions.rs: the queries.
--                       Webhook: the handlers of crates/api/src/routes/rooms.rs; Rows, Invariant: what
--                       any events leave; Leaving: republishing and late events.
--   Gateway/Session     crates/api/src/gateway/session.rs: `dispatch` and `replay_after`. History: the
--                       buffer after any life of a session; Replay, Buffer: what is replayed and kept.
--   Gateway/Hub         crates/api/src/gateway/hub.rs: the registry. Limit, Counting,
--                       Agreement, Registered, Eviction: connections.
--   Gateway/Connection  crates/api/src/gateway/mod.rs: `handle`, `identify`, `resume`, `allow_frame`.
--                       Version: `check_client_version`; Window: frames let through;
--                       Weaving, Resuming, Handshake: resuming, while others dispatch.
--   Gateway/Ready       crates/api/src/gateway/ready.rs: `current_room`. Entered: the rooms it may name.
--   Announce            crates/bot/src/announce.rs: `tagged_nickname`, `may_rename`. Tags:
--                       crates/db/src/repo/live_tags.rs, `apply_nickname`, `restore_nickname`; Rooms:
--                       `update_tags`, `apply`, the loop `run`. Nickname, Restoring, Records, Snapshots:
--                       what these leave.
--   Desktop             desktop/src-tauri/src. Convert: camera/convert.rs, with Writer for
--                       `Converter::write`; Rows, Packed, Total, Picture, Shown: indices and pixels.
--                       Base64: `base64_into` of preview.rs. Sharing: the commands of share.rs and the
--                       tracks of publisher.rs. Camera: `choose_format` of camera/mod.rs; Search, Choice.
--   Auth                crates/db/src/repo/refresh_tokens.rs and crates/api/src/auth/session.rs: the
--                       queries, and a request as phases. Family: live tokens of a family; Rotation: a
--                       request alone; Requests, Tracking, Interleaving, Reuse: any order of queries.
--   Admission           crates/api/src/permissions.rs, the token route of crates/api/src/routes/rooms.rs
--                       and the sweep of crates/bot/src/revoke.rs. Access: who is let in; Sweep: who
--                       stays in.
--   Bot                 crates/bot/src/handler.rs: what an event of Discord does to the replica and to
--                       the rooms, with `sweep_guild` of crates/bot/src/revoke.rs. Revoking, Leaving,
--                       Mirror: the rooms and the replica afterwards.
--   Pairing             crates/db/src/repo/pairing.rs, crates/domain/src/pairing.rs and the shape check of
--                       crates/domain/src/validation.rs. Codes: single use, clean-up, generation.
--   Protocol            crates/protocol/src: the types that these parts exchange.
--   Base                Helpers: tests on numbers, lists, bits, dictionaries and sets.
--
-- How code is modelled. A method behind a lock and a query of the database are atomic: each is a
-- function from the old state to the new. A rotation of refresh tokens has a phase between any two
-- of its queries, and requests interleave there. The resuming of a gateway session has gaps in
-- which others dispatch to it, in any order and number; that its old connection ends, or that it is
-- evicted, in such a gap is not modelled, nor are two dispatches to one session at once. Besides, a
-- webhook, a token request and a sweep are one step each, as if nothing came between their queries,
-- and so is an event of Discord at the bot. Clocks, drawn ids and hashes are arguments. Ids are
-- numbers. A u64 mask is a number with its complement in 64 bits; the sequence counter and the
-- counts are not bounded, as they would need 2^64 events to wrap. No function runs on fuel: all are
-- structural.
--
-- Not modelled: LiveKit's, Discord's and Windows' libraries, tokens and signatures; serialisation; a
-- database that fails, save in Announce, where each query may; the timers of the gateway's loop and the
-- content of READY beside the room (crates/api/src/gateway/ready.rs); the bot's commands and its
-- announcements of voice channels; other routes and extractors; capture, encoding, previews and
-- statistics of the desktop application.
-- crates/domain/src/permissions.rs and crates/db/src/repo/voice_states.rs are not compiled.
pub mod Base
pub mod Protocol
pub mod Domain
pub mod Replica
pub mod Rooms
pub mod Desktop
pub mod Gateway
pub mod Presence
pub mod Auth
pub mod Admission
pub mod Announce
pub mod Bot
pub mod Pairing
