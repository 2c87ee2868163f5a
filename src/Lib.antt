-- ===== src/Lib.antt =====
-- A model of ownPastebin: the page script web/static/js/custom.js and the part of the server that
-- keeps pastes (internal/, plugins/), with the theorems that make their parts correct.
--
-- The parts and the files that model them:
--   Prelude    texts as lists of UTF-16 code units or bytes, the character classes of the script's
--              regular expressions, Boolean tests on numbers, list measures.
--   Url        `replaceUrlParam` (`replace_url_param`) with its pattern (`search`) and its
--              replacement text (`expand`), and `flashBase` (`flash_base`). Url.Params is the
--              abstract view, a path with a list of named values, with a reader of queries that
--              is independent of the pattern.
--   I18n       `t` (`translate`) and `getBrowserLanguage`. Elements: the loops of
--              `applyTranslations`. Loading: `loadLanguage` and `initI18n`.
--   Page       what all handlers read: the prefix, the catalogue and `encodeURI`.
--   Base64     `uint8ToBase64`. Crypto: `deriveKey`, `aesEncrypt`, `aesDecrypt`.
--   Flash      the redirect to the start page with a message, as the handlers build it.
--   Delete     the delete confirmation. Send: `handleSend` and what it calls.
--   Menu       the expiry, burn and protected menus and `updateDropdownLabels`. Decrypt: the
--              decrypt button, with the page of web/templates/index.html; Decrypt.Modal has the
--              attempts that overlap. Copy: the copy button. Mermaid: the language selector and the
--              diagrams.
--   Plugins    `init_plugins`, which calls the functions that the page's JSON names.
--   Startup    what happens when a page is ready and on `hashchange`: the defaults, `loadPrism`,
--              `ensurePreId`, `normalizeLineHash`. Sidebar: `toggleMobileMenu` and the modal of
--              the deletion.
--   Expiry     `formatExpiry`. Strength: `updateStrength`. LineHash: `normalizeLineHash`.
--   Theme      `themeMap`, `applyTheme`, `re_theme`, `setInitialTheme`.
--   Server     Assets: `BuildFor` of plugins/plugin.go with the two plugins. Config: the readers of
--              environment values in internal/config.go and `loadSettings` (Config.Load), with what
--              they mean for the page (Config.Page), the menu (Config.Options), the sizes
--              (Config.Size), the times (Config.Time), their numbers (Config.Number) and the path prefix
--              (Config.Prefix). Strings:
--              the functions of Go's `strings` that they use. Ttl: the lifetime of a paste,
--              `resolveTTL` of internal/config.go. Store: the SQLite functions of
--              internal/storage.go; Store.View is the abstract view, a map from ids to the pastes
--              that are there at a time, and Store.Stats has the counts of `Stats`. Contract: the
--              interface `Storage` with what a backend promises, and `fetchPaste` on it; Contract.Sqlite and Postgres.Laws fill it. Redis:
--              the Redis functions at their transactions. Cipher: internal/crypto.go. Routes: the
--              handlers of internal/routes.go, on SQLite (Routes.Fetch: as on the interface;
--              Routes.Slots: many uploads at the same time; Routes.Limit: with the size limit of
--              Config). Readers: `fetchPaste` of several readers at the same time, on SQLite.
--              Limiter: `realIP` and `ipRateLimiter` of internal/middleware.go (Limiter.Idle: the
--              entries of addresses that have gone; Limiter.Bypass: without a trusted proxy). Log:
--              the handlers of internal/logger.go. Http: from the request to the response, the
--              middlewares, the `router` of internal/routes.go and `newPrefixHandler` of main.go;
--              Http.Ways has the ways that a request can take, and Http.Headers, Http.Caching,
--              Http.Sandbox, Http.Links, Http.Sharing and Http.Forging what they lead to. Start:
--              `run` of main.go with `newCrypto` and `newStorage`; Start.Env says what the
--              environment decides.
--              Query: `r.URL.Query().Get`, by which Send.Values says what the server decodes.
--   Way        an encrypted paste on its way from the form through the server to the reader.
--
-- How they interact: the send and the delete handler build addresses with Url and texts with I18n,
-- and leave the page by a Flash redirect; the send handler posts what Crypto encrypts, which is
-- encoded by Base64. The menus set what the send handler posts, and Loading changes the
-- catalogue from which all of them take their texts. Routes reads the parameters that Send writes, asks
-- Ttl for the expiry and Cipher for the stored bytes, and calls Store; the page that it renders
-- carries the names from Assets, which Plugins calls after the decrypt button has opened a text. Http
-- takes a request through the Limiter and the log to a handler of Routes, with the settings that
-- Config reads; Start makes the cipher and the storage that Routes works with.
--
-- A handler is a function from a state to a state. An asynchronous callback is a function of its own,
-- and the state lists what is awaited (`pending`, `loading`, `timers`); Delete.Safety, Send.Safety,
-- Loading.Laws, Copy.Laws, Mermaid.Laws, Decrypt.Attempts, Startup.Laws, Sidebar.Laws,
-- Server.Readers.Steps and Server.Routes.Slots have the step relations, in which clicks and requests may come at any time and
-- each wait ends with any result; Server.Limiter has lists of events. A rejected promise, an
-- exception and a Go error are `none`, or a constructor of the result.
--
-- Parameters: the Web Crypto API, the text codecs, `btoa` and `atob` are the browser's and stand in
-- Crypto.Platform with the laws that the script relies on; `encodeURI` and the values of the form are
-- arguments. On the server AES-GCM is Server.Cipher.Gcm with its law; the values of the query
-- parameters, the random ids and nonces, `utf8.Valid`, the clock, and whether the database answers
-- are arguments, and so are the trusted networks, the answer of the static file server, and the
-- decoder of base64 and the parsers of addresses, networks and URLs. The match of a path with a
-- pattern of chi's router is Server.Http.Mux, and the token bucket is Server.Limiter.Rate, each with
-- what the code relies on.
--
-- Fuel: the loop of `join_chunks` has one more than the array's length, and each round goes forward
-- by a chunk; `decimal` has one more than the number, and each round divides it by ten. The
-- `depth` of `init_plugins` is not fuel but the engine's limit on nested calls.
--
-- Not modelled: in custom.js `initMermaid`, which only calls the library; web/static/js/prism.js, a
-- vendored library; in the server the sizes of files and the statistics of Redis, the vacuum, the
-- encoding of JSON and of times, the rate of the limiter, a float, the templates and the description
-- of the API. A negative size limit is taken as 0 where the server starts: each upload is refused with
-- both. Where a database fails in the middle of a call is not told apart from where it fails before.
pub mod Prelude
pub mod Url
pub mod I18n
pub mod Page
pub mod Base64
pub mod Crypto
pub mod Flash
pub mod Delete
pub mod Send
pub mod Expiry
pub mod Strength
pub mod LineHash
pub mod Theme
pub mod Menu
pub mod Decrypt
pub mod Copy
pub mod Elements
pub mod Loading
pub mod Mermaid
pub mod Plugins
pub mod Startup
pub mod Sidebar
pub mod Server
pub mod Way
