-- ===== src/Lib.antt =====
-- nswall: a model of the browser-side programs of the NSWall administration theme, which lie under
-- admintasia_2.1/admintasia_updated_2.1/js/. custom.js and sidebar_position.js are the theme's own; the
-- other files modelled are plugins of other authors, which the theme carries as source.
--
-- The photo gallery (photo_gallery.js). `Gallery.State` has the gallery object: its settings, its data,
-- its properties, and the part of the page that its methods write (`View`). jQuery's calls are reads and
-- writes of these fields. Each method is a function: `Gallery.Index` (getNextIndex, getPrevIndex, the
-- bounds of goto), `Gallery.Pager` (buildPager, rebuildThumbs), `Gallery.Display` (buildImage,
-- syncThumbs, updateThumbs, refresh, goto), `Gallery.Slideshow` (pause, play, toggleSlideshow,
-- ssAdvance, clickHandler), `Gallery.Preload` (preloadInit, preloadRecursive, preloadNext),
-- `Gallery.Init` (initializeThumbs and the body of the plugin), `Gallery.Registry` (registerGallery,
-- getGallery, getIndex) and `Gallery.History` (getHashFromString, historyInit, historyAddHistory,
-- historyCheck, historyCallback). A read of a property of `undefined` is `type_error`, so that a theorem
-- that a method returns says that it does not throw. `Gallery.Display.Synced` says what it is for the
-- page and the thumbnails to be those of the current image, `Gallery.Display.Presents` what becomes of
-- that image, and `Gallery.Display.Goto` has both. `Gallery.Step` is the gallery between its calls:
-- timers, the interval, images that arrive, callbacks that a delegate was given, clicks, and the
-- history. The environment chooses the order of events.
--
-- The controls of every page (custom.js, sidebar_position.js). `Page.State` has the part of the document
-- that they write, and the interface of the cookies (`CookieJar`), which cookie.js implements: a
-- parameter, with its documented behaviour as laws. `Page.Sidebar`, `Page.Links` and `Page.Restore` are
-- the parts that the page is made of when it is ready: closing and opening the sidebar, portlets, marks
-- of links, and what each cookie restores. `Page.Widgets` has what follows the mouse, and calls the
-- menus' model for the navigation: the events of one element go first to superfish.js and then to
-- custom.js. `Page.Widgets.Navigation` says which ways the mouse can take over a page. `Page.Step` has
-- the handlers of clicks, the timers, and reloads. A script that asks for a reload runs on before the
-- browser reloads, so the cookie that it sets next is set. Ids are taken to have no character that a
-- selector reads otherwise.
--
-- The lasso (ui/ui.selectable.js). `Selectable.State` has the elements with their classes and their data
-- `selectable-item`, `Selectable.Element` what each handler does with one element, `Selectable.Gesture`
-- the handlers _mouseStart, _mouseDrag and _mouseStop on all of them, and `Selectable.Widget` has
-- _create and destroy. Which elements the filter finds, and the chain of elements around the place of a
-- press, the outermost first, come from the environment; callbacks are recorded for each element and
-- change nothing. Pixels are integers.
--
-- Editing in place (jeditable.js). `Editable.State` has one element with its data, the variables of its
-- handler, its timers and its open requests, and `Editable.Settings` the settings and what the code uses
-- of jQuery and the browser (`Library`: trim, toLowerCase, eval, and what innerHTML is of a form), which
-- are parameters. A select has one selected option, whose value is the field's. `Editable.Types` is the
-- table $.editable.types, `Editable.Begin` the handler of the
-- event that starts an edit, `Editable.Finish` the reset, the submit and the server's answers, and
-- `Editable.Step` the element between its calls. `Editable.Group` has the elements of one call, which
-- share the sizes in their settings. A hook is a function of the element that it is called with. The
-- answer to the request for the content, which is synchronous, and the sizes that are measured come with
-- the event. The handlers of a form are gone with the form; its timers are not. `Editable.Fields` has
-- what a save sends. `Editable.Spec` is what a user is promised of an element, without forms, timers and
-- requests, and `Editable.Step.Refines` has that the handlers keep to it.
--
-- The menus (superfish.js). `Menus.State` has the items of each menu in the order of the document, each
-- with the indices of the items around it, and what the plugin keeps for a menu: its options, of which
-- sf.op names the current ones, and the items of its timer. `Menus.Create` is the body of the plugin,
-- `Menus.Step` the handlers over and out, hideSuperfishUl and showSuperfishUl, and the events. A list is
-- displayed as soon as its animation starts. Callbacks change nothing. `Menus.Mouse` is the mouse over
-- one menu as a step relation: which items it is in, and what the browser can report next.
--
-- The file tree (file_tree.js). `Files.State` has the items and the lists of a tree, flat, each with the
-- items around it, and the requests for lists; `Files.Click` the handler of the links up to its request,
-- and `Files.Step` showTree's answer, bindTree, and the events. The handler of a link runs as often as
-- it is bound. The list that the server answers with is flat and comes hidden; animations are at their
-- end.
--
-- Conventions. A setting that is a selector or a delegate is a Boolean, whether it is given; a selector
-- that is given finds its element. A delegate that takes a callback is logged, and the callback runs
-- when the environment says so: a delegate that calls it before it returns is not covered. Indices are
-- integers; `numThumbs` above 0 is a hypothesis where it is
-- needed. How a text converts to a number is a parameter (`none` for NaN; integers only). The texts and
-- titles of links are constants and left out, and so is `relocatePreload`, which nothing reads. The
-- loops are structural; `preloadRecursive` calls itself at most once, and needs no fuel.
--
-- Not modelled: the set-up calls of custom.js for the live search, sortable columns and tooltips, which
-- only call libraries; the focus of an input in jeditable.js; the arrows and shadows of superfish.js;
-- jQuery, the rest of jQuery UI, TinyMCE and the other plugins; the C, PHP and shell parts of the
-- repository.
pub mod Common
pub mod Editable
pub mod Files
pub mod Gallery
pub mod Menus
pub mod Page
pub mod Selectable
