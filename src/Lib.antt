-- ===== src/Lib.antt =====
-- Xibo player for Linux: the scheduling of layouts and the playing of their regions and media.
--
-- The player fetches a schedule from its server, keeps the files of its layouts in a cache, decides which
-- layout plays now, and plays the media of the layout's regions until all of them have expired. The
-- development follows that path. The scheduler reads the clock, the validity of files in the cache and the
-- items that failed to play; it fills a queue of the layouts that may play and answers which comes next. A
-- layout starts its regions; a region plays its media one after the other and reports when it has gone
-- round; the layout expires when all of its regions have. A region asks the same store of unsafe items and
-- adds to it. A cycle of collection registers the display, fetches the schedule and the required files in
-- chunks, and reports to the server. The server can also send messages, by one of two transports; they
-- and the requests of the embedded server reach the same handlers of the application.
--
-- Files:
--   Base, Base/*: numbers (`int` as ℤ without overflow), lists, text, tests.
--   DateTime: player/common/dt/DateTime. boost::posix_time::ptime is a parameter `PosixTime T`: a type of
--     times with the operations that the class passes on; its laws are hypotheses where they are used.
--   UnsafeStore: player/control/cache/UnsafeItemStore. The singleton is threaded through the calls that
--     use it as a list of items.
--   Schedule/Item, Schedule/Item/Equality: player/schedule/ScheduleItem and LayoutSchedule.
--   Schedule/Queue: player/schedule/LayoutQueue, RegularLayoutQueue, OverlayLayoutQueue. `next`, `previous`
--     and `updateCurrent` return the changed queue; a position that vector::at refuses is `none`.
--   Schedule/Criteria: the criteria of player/schedule/Scheduler, with std::map as a sorted list.
--   Schedule/Scheduler: player/schedule/Scheduler. State has the members and the rules for a layout to
--     be valid, Internal the private methods, Lookup and Status the queries, and the file itself the
--     public methods. A method that can throw, fail an assertion or read an empty optional gives an
--     Option.
--   FileCache: player/common/storage/FileCacheImpl, the entries in memory; FileCache/Loading has the older
--     forms of the cache. FileCache::valid is the parameter `cache_valid` of the scheduler.
--   Media: player/control/media/MediaImpl. Region and Region/Position: player/control/region/RegionImpl and
--     GetMediaPosition. Layout: player/control/layout/MainLayoutImpl.
--   Cms: player/common/PlayerError and the answers of the server. Cms/Chunks: player/cms/xmds/
--     XmdsFileDownloader. Cms/Downloads: player/common/storage/RequiredItems and player/cms/
--     RequiredFilesDownloader. Cms/Collection: player/cms/CollectionInterval; Stages has what each stage
--     of a cycle reports, Cycle the whole cycle, Stats the statistics.
--   Xmr: player/xmr/XmrManager, its members and `connect`. Xmr/Messages: how messages are read and
--     dispatched. Connection, Again, Dispatch and Runs have the proofs.
--   Settings: player/config/PlayerSettings, and what XiboApp does with its fields for XmrManager.
--   App/Triggers, App/Control, App/Resources: player/XiboApp.cpp, the codes of triggers, the handlers of
--     requests and messages over an interface `Components` of the parts that they call, and the check and
--     the purge of the cached files.
--   Stat, Stat/Recorder: player/stat/records, player/stat/storage and player/stat/Recorder, with the
--     statements of SQLite as a parameter and the columns of its table. Stat/Submitted fills the interface
--     through which Cms/Collection uses the statistics.
--   Examples: the theorems at concrete inputs, with a clock that counts seconds.
--
-- Conventions. `now` is what DateTime::now() reads during a call; one call reads one time. `cache_valid` is
-- what FileCache::valid answers during a call. A timer is the delay of its pending call. What a signal
-- emits is a trace; the slots that a class connects itself (a region's to its media, a layout's to its
-- regions) run where the source runs them. A medium's attached medium, its attached one and so on are a
-- list. The loop of placeMedia has as many attempts as the region has media, which the source counts as
-- well; the loop over a layout's regions has as many rounds as there are regions. The loop over the chunks
-- of a file has the size of the file as fuel, which is enough since no chunk is empty; the texts of
-- numbers have as many rounds as the number. No other loop needs fuel: all go along a list.
-- A function that is called with what a third-party library or the server answers takes the answers as
-- parameters. Texts are compared by characters where the source compares bytes; the two agree for the
-- codes that the source looks for.
--
-- Not modelled: logging; the widgets and the window; the players of video, audio and web pages and their
-- overrides of onStarted and onStopped; transitions; reading and writing XML; the text lists of
-- UnsafeItemStore; the cache's file on disk; how requests to the server are written and
-- its answers read; sockets, threads, decryption and JSON; the statistics as XML; and the
-- application's start. They are input and output, or wiring of libraries that are not part of the
-- repository. Also not modelled: the order in which the downloads of a batch end, a collection that starts
-- before the worker of the last one has ended, and the layouts manager.
pub mod App
pub mod Base
pub mod DateTime
pub mod UnsafeStore
pub mod Schedule
pub mod FileCache
pub mod Media
pub mod Region
pub mod Layout
pub mod Xmr
pub mod Cms
pub mod Settings
pub mod Stat
pub mod Examples
