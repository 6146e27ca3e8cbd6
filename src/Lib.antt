-- ===== src/Lib.antt =====
-- The browser tracker of the Buykori AdSync plug-in, wordpress-plugin/buykori-adsync/assets/js/tracker.js:
-- what it reads of a shop's page, which events it sends, to whom, and how often.
--
-- The tracker is one script. When a page loads it keeps the campaign and the visitor's identifiers in
-- cookies, starts the pixels of Facebook and TikTok, and sends the events of the page; afterwards its
-- listeners, timers and observers send the others. Every event goes through sendEvent: its payload is
-- normalised, it gets one identifier, the pixels are called with it, and one request goes to the shop's
-- server, as JSON or, where that route is missing or fails, as a form. Events that repeat are held back by
-- eventOnce, the InitiateCheckout by a flag, and its identifier is kept in a cookie until the order is
-- made.
--
-- Files, each named for its part of tracker.js:
--   Page       the configuration, as includes/frontend-tracking.php writes it, and the browser's answers
--   Once       eventOnce
--   Path       currentPathKey, canonicalPagePath, isThankYouFlowPage, shouldSendPageView, isOnePageMode
--   Campaign   normalizeCampaignValue and the rules of getMarketingParams
--   Cookie     getCookie and setCookieLocal over a jar; Cookie/Domain getCookieDomain
--   Content    isValidContentId and normalizeEventData
--   World      what the functions change, the monad that they run in, and what leaves the page
--   Visitor    ensureFirstPartyCookies, createVisitorId, getExternalId, persistMarketingParams,
--              getMarketingParams, getTikTokClickId, getGA4ClientId, getGA4SessionId and the markers
--   Send       sendEvent, buildAjaxFormData, sendViaAjax; Send/FormFields getFieldValue, getCustomerData
--              and hasStrongCustomerData, Send/Settle the handlers of its fetch
--   Product    getSelectedVariationInfo, getProductDataFromElement, productPayloadFromData, parsePrice
--   Checkout   checkoutPayload, sendInitiateCheckoutOnce and its callers, and the listeners that
--              bindCheckoutIntentTracking sets up
--   Pixels     initializeHybridPixels
--   Shop       Shop/View PageView and ViewContent, Shop/AddToCart AddToCart, Shop/Cart ViewCart,
--              RemoveFromCart, AddPaymentInfo, Lead and Search
--   Browser    the page as the script finds it, with its timers; Browser/Views the observers of the
--              product and of observeLandingProductCards, Browser/Parts scheduleCheckoutSurfaceChecks,
--              checkoutObserver, payObserver and the remove buttons, Browser/Script the script from its
--              first line to its last, every timer and every listener
--   Js         what is used of JavaScript: texts, decimals, numbers, values, URI coding, exceptions
--   Prelude    names and lemmas that all share; Examples a shop's page and uses of the theorems
--
-- How the code is modelled. A text is a list of code points. A function that reads cookies, draws a
-- random number or sends is a function from the World to an outcome and a World; an exception keeps the
-- changes made before it. A number is an exact decimal, since the tracker does no arithmetic on prices;
-- the rounding to a double is left out, as is the exponent that JavaScript prints for very large or
-- small numbers. A random number is a multiple of 2 ^ -53. Lower case changes ASCII letters and the two
-- other characters whose lower case has ASCII letters. A cookie has a name, a value, a domain and an
-- expiry, with the path /; the expiry is cut to seconds, as toUTCString does. The body of a request stays
-- an object where the code makes JSON of it, and which event a request is of is read off its body. The
-- items of a payload are new objects, where the code changes those of cfg.cart in place.
--
-- A page lives by a list of happenings: the script runs first, and then one event after the other, each
-- with the time and the document that it finds, runs the listeners that are there. A timer is there from
-- setTimeout until it fires or is cleared; when it fires is left open: the happenings may come in every
-- order of the timers among themselves and among the events. An exception ends the listener or the timer
-- that it happens in, or the rest of the script, and nothing else. Reports that an observer has not
-- delivered when it is disconnected are taken as dropped. A fetch is pending, in the World, until it
-- settles with a good response, with a bad one, or with none; when and how it does is left open too.
--
-- Parameters: the query's parameters, the domains for which the browser takes a cookie, random numbers and
-- words, JSON.parse, the document's answers to selectors and which browser features exist.
-- Show, in decimal or hexadecimal, recurs on a fuel of one more than the number, which is enough since
-- each digit divides the number; all other loops recur on a list.
--
-- Not modelled: the vendors' loader scripts of the two pixels, which are one effect each, and what becomes
-- of a request once it has left the page, but for the outcome of a fetch. The Python backend,
-- the plug-in's PHP and the minified bundles of the client portal, which are the output of a build whose
-- sources are not in the repository, are outside this library.
pub mod Prelude
pub mod Js
pub mod Page
pub mod Once
pub mod Path
pub mod Campaign
pub mod Cookie
pub mod Content
pub mod World
pub mod Visitor
pub mod Send
pub mod Product
pub mod Checkout
pub mod Pixels
pub mod Shop
pub mod Browser
pub mod Examples
