-- ===== src/Lib.antt =====
-- A verification library for the Matrix bridge plugin of Mattermost (server/). The plugin copies
-- posts, edits, reactions and files between Mattermost channels and Matrix rooms. Matrix pushes its
-- events to the webhook; a queue with workers hands them to the handlers; requests to Matrix go
-- through rate limits and retries; and what belongs together (channels and rooms, users and ghost
-- users) is kept in the key-value store of the server, with caches in memory in front of it.
--
-- The parts, and the files that model them:
--   Prelude          Booleans, lists, integers, texts as lists of bytes with the functions of package
--                    strings, and Go's maps with string keys.
--   Cache            server/cache.go. The state is the map, the linked list and the entries behind
--                    pointers: get, set, delete, evict_expired, clear, stats and len are Get, Set,
--                    Delete, EvictExpired, Clear, Stats and Len. Cache/Spec has the same operations on
--                    a list of entries.
--   Tracker          server/post_tracker.go. Tracker/Posts is PostTracker, Tracker/Files is
--                    PendingFileTracker.
--   Batcher          server/batcher.go, with its timers and its calls of onFlush as explicit events:
--                    add and flush_all are Add and FlushAll, flush is Flush up to Unlock, after which
--                    the call of onFlush is a step of its own.
--   Queue            server/queue.go, as a relation between states: enqueue and process are Enqueue
--                    and processTask, and a step of a worker is one pass through its select.
--   Matrix/Retry     server/matrix/retry.go: with_retry, should_retry and calculate_backoff are
--                    withRetry, shouldRetry and calculateBackoff.
--   Matrix/RateLimit server/matrix/ratelimit.go: allow, get_wait_time and wait are Allow, getWaitTime
--                    and Wait; Matrix/RateLimit/Config has the modes and their configurations.
--   Store            server/store/kvstore: the keys, and the interface of the store, whose laws are
--                    what the Mattermost server documents. Store/Memory is an instance of them.
--   Mapping          The mapping of channels and rooms: get_matrix_room_id and
--                    set_channel_room_mapping are GetMatrixRoomID and setChannelRoomMapping of
--                    server/bridge_utils.go, get_channel_id_from_matrix_room is
--                    getChannelIDFromMatrixRoom of server/matrix_webhook.go, execute_unmap_command is
--                    executeUnmapCommand of server/command/command.go.
--   Migrations       server/migrations.go: the bodies of its four loops, the loop over pages that they
--                    share (migrate_pages), and in Migrations/Versions the order of the migrations and
--                    the version marker.
--   Event            The events of server/matrix_webhook.go, with the JSON of their content.
--   Ghost            The Matrix users that stand for Mattermost users.
--   Webhook          server/matrix_webhook.go: handle_matrix_transaction and process_matrix_event are
--                    handleMatrixTransaction and processMatrixEvent; the events go to the queue of
--                    Queue, and direct channels are mapped by the function of Mapping.
--   Content          The text of a Matrix message, of server/bridge_utils.go and server/matrix_util.go:
--                    extract_matrix_message_content is extractMatrixMessageContent; Content/Html has its
--                    regular expressions as automata.
--   Mattermost       The Mattermost server as the plugin calls it: an interface with laws.
--                    Mattermost/InMemory is an instance of them.
--   ToMattermost     server/sync_to_mattermost.go: sync_matrix_message_to_mattermost and the other
--                    functions of ToMattermost/Messages, Reactions, Redactions and Members are the
--                    handlers of the source under the same names; ToMattermost/Users has
--                    getOrCreateMattermostUser, ToMattermost/Names the user names and
--                    ToMattermost/Profiles the profiles; ToMattermost/Emoji also covers server/emoji.go.
--   ToMatrix         server/sync_to_matrix.go. ToMatrix/Users has the ghost users and the users of mirror
--                    mode, ToMatrix/Reactions and ToMatrix/Posts reactions and deleted posts,
--                    ToMatrix/Mentions and ToMatrix/Attachments the mentions of a post and the comparison
--                    of its content with that of the room; ToMatrix/Sync is createPostInMatrix,
--                    updatePostInMatrix and syncPostToMatrixWithResolvedRoom, with the trackers of
--                    Tracker; ToMatrix/Direct is getOrCreateDMRoom, SyncPostToMatrix and
--                    SyncPostsToMatrix. ToMatrix/Sending is SendMessage and what it sends, of
--                    server/matrix/client.go.
--   Markdown         server/markdown_utils.go: convert_mattermost_to_matrix and convert_markdown_to_html
--                    are convertMattermostToMatrix and convertMarkdownToHTML, with code and emphasis in
--                    Markdown/Inline, links in Markdown/Links, and headings and tables in
--                    Markdown/Lines.
--   Dispatch         Webhook with ToMattermost: handle_event is processMatrixEvent with its handlers.
--   Api              server/configuration.go and server/api.go: on_configuration_change,
--                    validate_configuration and matrix_authorization_required are
--                    OnConfigurationChange, validateConfiguration and MatrixAuthorizationRequired, and
--                    serve_transaction is the route of ServeHTTP to the transactions, for PUT only.
--
-- Conventions. Times and durations are natural numbers of nanoseconds, which fit the 64 bits of the
-- source for the values that the program makes; clocks do not run backwards. A method that holds its
-- lock throughout is one step. Floats of the source are exact here, in units in which every value of
-- the source is whole. An operation of the key-value store, of the Matrix server and of the Mattermost
-- server is a parameter, which may fail at any call where the source has an error for it. So is the
-- package that converts HTML to Markdown, the JSON of what is stored of a reaction, and the generated
-- table of emoji. Webhook takes getOrCreateMattermostUser as a parameter, which Dispatch fills with the
-- function of ToMattermost/Users. Where the source would panic for want of a Matrix client, the model
-- has an error, or takes the client as given.
--
-- Fuel. migrate_pages takes one unit of fuel for a page and one more for the end: with pages of
-- `batch` keys, `fuel` units are enough for `(fuel - 1) * batch` keys, and the source has no bound.
-- wait takes one unit for a round, and two are enough for a single caller. retry_loop takes one unit for
-- a request, and is started with `MaxRetries + 1`, the bound of the loop in the source. first_free counts
-- down the thousand names that generateMattermostUsername tries. group_members takes one unit for a page,
-- and two are enough for a group of at most ten thousand members.
--
-- Not modelled: the rest of the Matrix client, whose calls are the operations of the interface
-- MatrixServer; the other commands; and the hooks, which build on the parts above. Which letters package
-- unicode has is a parameter of ToMatrix/Mentions. Logging, metrics, generated tables and mocks have no
-- logic of their own.
pub mod Prelude
pub mod Cache
pub mod Tracker
pub mod Batcher
pub mod Queue
pub mod Matrix
pub mod Store
pub mod Mapping
pub mod Migrations
pub mod Webhook
pub mod Event
pub mod Mattermost
pub mod ToMattermost
pub mod Content
pub mod Ghost
pub mod Dispatch
pub mod Api
pub mod ToMatrix
pub mod Markdown
